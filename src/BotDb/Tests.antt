-- ===== src/BotDb/Tests.antt =====
-- The database at concrete files and transactions.
use skivvy.Base.{
  true, ◌≡◌, refl, Option, none, some, List, [], ◌∷◌, ◌++◌, if◌then◌else◌, Str, codes, str_eq,
}
use skivvy.BotDb.{new_db, get_value, begin_transaction}
use skivvy.BotDb.Commit.{IsSaved}
use skivvy.BotDb.Transactions.{
  Op, sets, adds, gets, transaction, transactions, transactions-IsSaved, first_transaction,
}

abbrev files : Str → Option Str
files k = if str_eq k (codes "seen") then some (codes "zim\n") else none

abbrev used : List (List Op)
used =
    (adds (codes "seen") (codes "bob") ∷ gets (codes "lost") [] ∷ [])
    ∷ (sets (codes "seen") (codes "eve") 2 ∷ [])
    ∷ []

transactions-IsSaved_example : IsSaved (transactions used (new_db files (λ k. true)))
transactions-IsSaved_example = transactions-IsSaved files (λ k. true) used (λ k. refl)

first_transaction_example :
    ((get_value (codes "seen") (codes "none") (begin_transaction (new_db files (λ k. true)))).0
      ≡ codes "none")
    × ((transaction (adds (codes "seen") (codes "bob") ∷ []) (new_db files (λ k. true))).files
          (codes "seen")
        ≡ some (codes "bob" ++ 10 ∷ []))
first_transaction_example =
    first_transaction files (λ k. true) (codes "seen") (codes "bob") (codes "none") refl
