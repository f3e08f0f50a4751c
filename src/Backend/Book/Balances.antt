-- ===== src/Backend/Book/Balances.antt =====
-- Balances of service.go against exact totals.
use core_banking_system.Prelude.{
  ◌≡◌, refl, ℕ, suc, ◌+◌, ◌%◌, ◌<◌, List, [], ◌∷◌, ◌++◌, map, arith, nat_eq, if◌then◌else◌,
}
use core_banking_system.Enums.{Direction, debit, credit}
use core_banking_system.Backend.Book.{
  Entry, Transaction, range, add, sub, opposite, same_direction, replay_entry, replay, replay_all,
}
use core_banking_system.Backend.Book.Methods.{numbered, flipped, mark_reversed}
use core_banking_system.Backend.Book.Totals.{part, total, total_all, part-flipped, entries-mark}

-- An entry's part in the total of one direction on one account.
abbrev pub on : ℕ → Direction → Entry → ℕ
on id dir e = if nat_eq e.account_id id then part dir e else 0

-- One entry: its part in the other direction is taken away, the one in this direction is added.
replay_entry-on :
    (id : ℕ) (n : Direction) (e : Entry) (x k : ℕ)
    → (replay_entry id n e x + k + on id (opposite n) e) % range ≡ (x + k + on id n e) % range
unfolding replay_entry add sub opposite same_direction
replay_entry-on id debit e x k = ground arith
replay_entry-on id credit e x k = ground arith

replay_entry_lt :
    (id : ℕ) (n : Direction) (e : Entry) (x : ℕ) → x < range → replay_entry id n e x < range
unfolding replay_entry add sub same_direction
replay_entry_lt id n e x h = ground arith

pub replay_lt :
    (id : ℕ) (n : Direction) (es : List Entry) (x : ℕ) → x < range → replay id n es x < range
unfolding replay
replay_lt id n [] x h = h
replay_lt id n (e ∷ es) x h = replay_lt id n es _ (replay_entry_lt id n e x h)

pub replay-total :
    (id : ℕ) (n : Direction) (es : List Entry) (x : ℕ)
    → (replay id n es x + total (on id (opposite n)) es) % range ≡ (x + total (on id n) es) % range
unfolding replay
replay-total id n [] x = refl
replay-total id n (e ∷ es) x =
    let i = replay-total id n es (replay_entry id n e x) in
    let s = replay_entry-on id n e x (total (on id n) es) in omega arith

-- A replayed balance is, as an int64, what was there and the exact total of the entries in one direction
-- on the account, less that of the entries in the other.
pub replay_all-total :
    (id : ℕ) (n : Direction) (ts : List Transaction) (x : ℕ)
    → (replay_all id n ts x + total_all (on id (opposite n)) ts) % range
      ≡ (x + total_all (on id n) ts) % range
unfolding replay_all
replay_all-total id n [] x = refl
replay_all-total id n (t ∷ ts) x =
    let i = replay_all-total id n ts (replay id n t.entries x) in
    let s = replay-total id n t.entries x in omega arith

pub replay_all_lt :
    (id : ℕ) (n : Direction) (ts : List Transaction) (x : ℕ)
    → x < range
    → replay_all id n ts x < range
unfolding replay_all
replay_all_lt id n [] x h = h
replay_all_lt id n (t ∷ ts) x h = replay_all_lt id n ts _ (replay_lt id n t.entries x h)

pub replay_all-append :
    (id : ℕ) (n : Direction) (ts us : List Transaction) (x : ℕ)
    → replay_all id n (ts ++ us) x ≡ replay_all id n us (replay_all id n ts x)
unfolding replay_all
replay_all-append id n [] us x = refl
replay_all-append id n (t ∷ ts) us x = replay_all-append id n ts us (replay id n t.entries x)

pub replay_all-mark_reversed :
    (id : ℕ) (n : Direction) (key : ℕ) (ts : List Transaction) (x : ℕ)
    → replay_all id n (mark_reversed key ts) x ≡ replay_all id n ts x
unfolding replay_all mark_reversed
replay_all-mark_reversed id n key [] x = refl
replay_all-mark_reversed id n key (t ∷ ts) x =
    rw (entries-mark key t, replay_all)
      (replay_all-mark_reversed id n key ts (replay id n t.entries x))

pub replay-numbered :
    (id : ℕ) (n : Direction) (k : ℕ) (es : List Entry) (x : ℕ)
    → replay id n (numbered k es) x ≡ replay id n es x
unfolding replay replay_entry numbered
replay-numbered id n k [] x = refl
replay-numbered id n k (e ∷ es) x = replay-numbered id n (suc k) es (replay_entry id n e x)

-- Replaying the flipped entries, then the entries, changes nothing.
total-on-flipped :
    (id : ℕ) (dir : Direction) (es : List Entry)
    → total (on id dir) (map flipped es) ≡ total (on id (opposite dir)) es
unfolding opposite
total-on-flipped id dir [] = refl
total-on-flipped id dir (e ∷ es) = rw (part-flipped dir e, total-on-flipped id dir es) refl

replay-flipped-total :
    (id : ℕ) (n : Direction) (es : List Entry) (x : ℕ)
    → (replay id n (map flipped es) x + total (on id n) es) % range
      ≡ (x + total (on id (opposite n)) es) % range
unfolding opposite
replay-flipped-total id debit es x =
    let a = replay-total id debit (map flipped es) x in
    let p = total-on-flipped id credit es in let q = total-on-flipped id debit es in omega arith
replay-flipped-total id credit es x =
    let a = replay-total id credit (map flipped es) x in
    let p = total-on-flipped id credit es in let q = total-on-flipped id debit es in omega arith

pub replay-flipped :
    (id : ℕ) (n : Direction) (es : List Entry) (x : ℕ)
    → x < range
    → replay id n es (replay id n (map flipped es) x) ≡ x
replay-flipped id n es x h =
    let y = replay id n (map flipped es) x in
    let bound = replay_lt id n es y (replay_lt id n (map flipped es) x h) in
    let back = replay-flipped-total id n es x in let forth = replay-total id n es y in omega arith
