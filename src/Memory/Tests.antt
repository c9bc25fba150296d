-- ===== src/Memory/Tests.antt =====
-- Runs of the memory accounts, and the theorems at a query account with one task account.
use distributed_sql.Prelude.{
  ℕ, zero, suc, ◌≡◌, refl, Option, none, some, [], ◌∷◌, ok, err, arith, get_elem?,
}
use distributed_sql.Prelude.Int.{ℤ, pos, ◌≤ℤ◌, ◌+ℤ◌, ◌-ℤ◌}
use distributed_sql.Memory.{
  Account, Heap, MemoryError, memory_limit_exceeded, reserve, try_reserve, release, chain, create,
  child, ancestors, first_exceeded, modify_all, modify,
}
use distributed_sql.Memory.Chain.{IsTree, IsPath, chain-IsPath}
use distributed_sql.Memory.Releases.{release-IsValid}
use distributed_sql.Memory.Limits.{
  IsValid, HasRoom, reserve-IsValid, reserve-ok_iff, release-reserve, current_of,
}

abbrev pub account : ℤ → Option ℕ → ℤ → ℤ → Account
account limit parent current peak = record {
  name = "account";
  limit_bytes = limit;
  parent = parent;
  current_bytes = current;
  peak_bytes = peak;
}

-- A query account of 100 bytes and its task account of 60, with 10 bytes in use.
abbrev pub accounts : Heap
accounts =
    account (pos 100) none (pos 10) (pos 20) ∷ account (pos 60) (some 0) (pos 10) (pos 10) ∷ []

pub accounts-IsTree : IsTree accounts
accounts-IsTree zero p e = cc
accounts-IsTree (suc zero) p e = ground arith
accounts-IsTree (suc (suc a)) p e = cc

accounts-IsValid : IsValid accounts
accounts-IsValid zero x e = ground arith
accounts-IsValid (suc zero) x e = ground arith
accounts-IsValid (suc (suc a)) x e = cc

program : Unit {0}
unfolding reserve release try_reserve chain ancestors first_exceeded modify_all modify ◌+ℤ◌ ◌-ℤ◌
    create child
program = tt

too_much : (reserve (pos 55) 1 accounts).0 ≡ err (memory_limit_exceeded "account" (pos 60))
unfolding program
too_much = refl

charged : reserve (pos 50) 1 accounts ≡ (
  ok tt,
  account (pos 100) none (pos 60) (pos 60) ∷ account (pos 60) (some 0) (pos 60) (pos 60) ∷ [],
)
unfolding program
charged = refl

made : (child 0 "task" none (create "query" (pos 8) none []).1).0 ≡ ok 1
unfolding program
made = refl

chain-IsPath_example : IsPath accounts (some 1) (chain accounts 1)
chain-IsPath_example = chain-IsPath accounts 1 accounts-IsTree

reserve-IsValid_example : IsValid (reserve (pos 50) 1 accounts).1
reserve-IsValid_example = reserve-IsValid (pos 50) 1 accounts accounts-IsTree accounts-IsValid

release-IsValid_example :
    IsValid (release (pos 5) 1 accounts).1
    × ((y : Account)
        → get_elem? (release (pos 5) 1 accounts).1 1 ≡ some y
        → pos 0 ≤ℤ y.current_bytes)
    × ((e : MemoryError)
        → (release (pos 5) 1 accounts).0 ≡ err e
        → (release (pos 5) 1 accounts).1 ≡ accounts)
release-IsValid_example =
    release-IsValid (pos 5) 1 accounts (account (pos 60) (some 0) (pos 10) (pos 10)) accounts-IsTree
      accounts-IsValid refl (omega arith)

reserve-ok_iff_example :
    ((reserve (pos 50) 1 accounts).0 ≡ ok tt → HasRoom (pos 50) accounts (chain accounts 1))
    × (HasRoom (pos 50) accounts (chain accounts 1) → (reserve (pos 50) 1 accounts).0 ≡ ok tt)
reserve-ok_iff_example = reserve-ok_iff 49 1 accounts

reserved_50 : (reserve (pos 50) 1 accounts).0 ≡ ok tt
unfolding program
reserved_50 = refl

release-reserve_example :
    ((release (pos 50) 1 (reserve (pos 50) 1 accounts).1).0 ≡ ok tt)
    × ((a : ℕ)
        → current_of (release (pos 50) 1 (reserve (pos 50) 1 accounts).1).1 a
          ≡ current_of accounts a)
release-reserve_example =
    release-reserve 49 1 accounts accounts-IsTree (account (pos 60) (some 0) (pos 10) (pos 10)) refl
      (omega arith) reserved_50
