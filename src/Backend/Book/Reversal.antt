-- ===== src/Backend/Book/Reversal.antt =====
-- What `ReverseTransaction` does to the balances.
use core_banking_system.Prelude.{◌≡◌, refl, ℕ, String, false, some, [], ◌∷◌, ◌++◌, map, arith}
use core_banking_system.Enums.{AccountType}
use core_banking_system.Backend.Book.{
  Transaction, Book, normal_direction, replay, replay_all, compute_book_balance, append_audit,
}
use core_banking_system.Backend.Book.Methods.{
  transaction_with, is_reversed, reverse_transaction, reversal_of_transaction, flipped,
  mark_reversed, after,
}
use core_banking_system.Backend.Book.Balances.{
  replay_all_lt, replay_all-append, replay_all-mark_reversed, replay-numbered, replay-flipped,
}

transactions-reverse :
    (now id : ℕ) (description : String) (b : Book) (t : Transaction)
    → transaction_with id b ≡ some t
    → is_reversed t.status ≡ false
    → (after (reverse_transaction now id description b) b).transactions
      ≡ mark_reversed id b.transactions
        ++ (reversal_of_transaction now description t b.id_counter ∷ [])
unfolding reverse_transaction append_audit
transactions-reverse now id description b t e k = rw (e, k, reverse_transaction) refl

-- Where a transaction is reversed, replaying its entries on any balance afterwards gives the balance from
-- before: the reversal takes away exactly what the transaction did.
pub replay-reverse :
    (now id : ℕ) (description : String) (b : Book) (t : Transaction) (account : ℕ)
    (kind : AccountType)
    → transaction_with id b ≡ some t
    → is_reversed t.status ≡ false
    → replay account
        (normal_direction kind)
        t.entries
        (compute_book_balance (after (reverse_transaction now id description b) b) account kind)
      ≡ compute_book_balance b account kind
unfolding compute_book_balance reversal_of_transaction replay_all
replay-reverse now id description b t account kind e k =
    let n = normal_direction kind in
    let reversal = reversal_of_transaction now description t b.id_counter in
    rw
      (
        transactions-reverse now id description b t e k,
        replay_all-append account n (mark_reversed id b.transactions) (reversal ∷ []) 0,
        replay_all-mark_reversed account n id b.transactions 0,
        replay-numbered account n b.id_counter (map flipped t.entries)
            (replay_all account n b.transactions 0),
      )
      (replay-flipped account n t.entries (replay_all account n b.transactions 0)
        (replay_all_lt account n b.transactions 0 (omega arith)))
