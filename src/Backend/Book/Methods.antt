-- ===== src/Backend/Book/Methods.antt =====
-- `PostTransaction` and `ReverseTransaction` of service.go, and the calls of a client as one type.
use core_banking_system.Prelude.{
  ℕ, suc, String, Bool, true, false, Option, none, some, List, [], ◌∷◌, ◌++◌, map, ◌&&◌, not, every,
  any, find, is_some, nat_eq, ◌=?◌, truthy, if◌then◌else◌,
}
use core_banking_system.Enums.{AccountType, TransactionStatus, posted, reversed}
use core_banking_system.Backend.Book.{
  Entry, Transaction, Book, BookError, empty_transaction, invalid_amount, account_not_found,
  duplicate_idempotency_key, unbalanced_transaction, insufficient_balance, transaction_not_found,
  transaction_already_reversed, transaction_posted, transaction_reversed, Result, error, ok,
  is_positive, account_of, is_balanced, has_sufficient_balance, append_audit, opposite,
  create_ledger, create_subledger, create_account,
}

pub record PostRequest : Type 0 where
  pub idempotency_key : String
  pub entries : List Entry
  pub booking_date : ℕ
  pub value_date : ℕ
  pub description : String
  pub metadata : List (String × String)

-- A key that is in the index already.
unfoldable pub is_used : String → Book → Bool
is_used key b = truthy key && any (λ p. p.0 =? key) b.idempotency_index

-- The checks of a posting, in their order.
unfoldable pub refusal : String → List Entry → Book → Option BookError
unfolding is_used account_of is_balanced has_sufficient_balance
refusal key [] b = some empty_transaction
refusal key (e ∷ es) b =
    if not (every (λ x. is_positive x.amount) (e ∷ es))
    then some invalid_amount
    else if not (every (λ x. is_some (account_of b x.account_id)) (e ∷ es))
    then some account_not_found
    else if is_used key b
    then some duplicate_idempotency_key
    else if not (is_balanced (e ∷ es) 0 0)
    then some unbalanced_transaction
    else if not (has_sufficient_balance b (e ∷ es))
    then some insufficient_balance
    else none

-- The entries get the next ids, one after another.
unfoldable pub numbered : ℕ → List Entry → List Entry
numbered n [] = []
numbered n (e ∷ es) = record e { id = suc n } ∷ numbered (suc n) es

unfoldable pub last_id : ℕ → List Entry → ℕ
last_id n [] = n
last_id n (e ∷ es) = last_id (suc n) es

abbrev or_time : ℕ → ℕ → ℕ
or_time t d = if nat_eq t 0 then d else t

unfoldable pub transaction_of : ℕ → PostRequest → ℕ → Transaction
unfolding numbered last_id
transaction_of now r n = record {
  id = suc (last_id n r.entries);
  idempotency_key = r.idempotency_key;
  entries = numbered n r.entries;
  booking_date = or_time r.booking_date now;
  value_date = or_time r.value_date (or_time r.booking_date now);
  status = posted;
  description = r.description;
  metadata = r.metadata;
  created_at = now;
  reversal_of = none;
}

unfoldable pub post_transaction : ℕ → PostRequest → Book → Result Transaction
unfolding refusal transaction_of append_audit
post_transaction now r b = elim (refusal r.idempotency_key r.entries b) [
  | some e ↦ error e
  | none ↦
      let t = transaction_of now r b.id_counter in
      ok t (
        append_audit now transaction_posted t.id (record b {
          transactions = b.transactions ++ (t ∷ []);
          idempotency_index =
              if truthy r.idempotency_key
              then (r.idempotency_key, t.id) ∷ b.idempotency_index
              else b.idempotency_index;
          id_counter = t.id;
        }))
]

abbrev pub flipped : Entry → Entry
flipped e = record e { direction = opposite e.direction }

unfoldable pub reversal_of_transaction : ℕ → String → Transaction → ℕ → Transaction
unfolding numbered last_id opposite
reversal_of_transaction now description t n = record {
  id = suc (last_id n t.entries);
  idempotency_key = "";
  entries = numbered n (map flipped t.entries);
  booking_date = now;
  value_date = t.value_date;
  status = posted;
  description = description;
  metadata = [];
  created_at = now;
  reversal_of = some t.id;
}

-- `original.Status = Reversed`, in the map.
unfoldable pub mark : ℕ → Transaction → Transaction
mark id t = if nat_eq t.id id then record t { status = reversed } else t

unfoldable pub mark_reversed : ℕ → List Transaction → List Transaction
unfolding mark
mark_reversed id ts = map (mark id) ts

abbrev pub is_reversed : TransactionStatus → Bool
is_reversed posted = false
is_reversed reversed = true

unfoldable pub transaction_with : ℕ → Book → Option Transaction
transaction_with id b = find (λ t. nat_eq t.id id) b.transactions

unfoldable pub reverse_transaction : ℕ → ℕ → String → Book → Result Transaction
unfolding transaction_with reversal_of_transaction mark_reversed append_audit
reverse_transaction now id description b = elim (transaction_with id b) [
  | none ↦ error transaction_not_found
  | some original ↦
      if is_reversed original.status
      then error transaction_already_reversed
      else let t = reversal_of_transaction now description original b.id_counter in
        ok t (
          append_audit now transaction_reversed original.id (record b {
            transactions = mark_reversed id b.transactions ++ (t ∷ []);
            id_counter = t.id;
          }))
]

-- The calls that change a book. A refused call leaves it as it is.
pub data Command : Type 0 where
  new_ledger : String → Command
  new_subledger : ℕ → String → Command
  new_account : ℕ → String → AccountType → Command
  post : PostRequest → Command
  reverse : ℕ → String → Command

abbrev pub after : {A : Type 0} → Result A → Book → Book
after (error e) b = b
after (ok a c) b = c

unfoldable pub run : ℕ → Command → Book → Book
unfolding create_ledger create_subledger create_account post_transaction reverse_transaction
run now (new_ledger name) b = after (create_ledger now name b) b
run now (new_subledger l name) b = after (create_subledger now l name b) b
run now (new_account s name t) b = after (create_account now s name t b) b
run now (post r) b = after (post_transaction now r b) b
run now (reverse id description) b = after (reverse_transaction now id description b) b
