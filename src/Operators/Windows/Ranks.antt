-- ===== src/Operators/Windows/Ranks.antt =====
-- The ranks of ordered rows.
use mathlib.Core.Path.{ap₂}
use distributed_sql.Prelude.{
  ℕ, suc, ◌≡◌, refl, sym, ap, ◌∙◌, fun_ext, append-nil, Bool, true, false, not, ◌⊎◌, inl, inr, none,
  some, List, [], ◌∷◌, ◌++◌, length, keep, keep-append, All, length-append, if◌then◌else◌, arith,
}
use distributed_sql.Operators.Joins.Reference.{IsKeyEquality}
use distributed_sql.Operators.Windows.{rank_rows}

module _ {P : Type 0} (same : P → P → Bool) where
  abbrev pub HasLast : List P → P → Type 0
  HasLast [] p = ⊥
  HasLast (q ∷ []) p = same p q ≡ true
  HasLast (q ∷ r ∷ earlier) p = HasLast (r ∷ earlier) p

  -- After the rows that went before, each row is a peer of the one before it, or of none of them:
  -- peers stand together, as they do where rows are sorted.
  abbrev pub IsGrouped : List P → List P → Type 0
  IsGrouped before [] = Unit
  IsGrouped before (p ∷ later) =
      (HasLast before p ⊎ All (λ q. same q p ≡ false) before) × IsGrouped (before ++ p ∷ []) later

  -- One more than the number of rows before that are no peers.
  abbrev pub rank_after : List P → P → ℕ
  rank_after before p = suc (length (keep (λ q. not (same q p)) before))

  abbrev pub ranks : List P → List P → List ℕ
  ranks before [] = []
  ranks before (p ∷ later) = rank_after before p ∷ ranks (before ++ p ∷ []) later

  HasLast-append : (xs : List P) (p₀ p : P) → HasLast (xs ++ p₀ ∷ []) p → same p p₀ ≡ true
  HasLast-append [] p₀ p h = h
  HasLast-append (x ∷ []) p₀ p h = h
  HasLast-append (x ∷ y ∷ xs) p₀ p h = HasLast-append (y ∷ xs) p₀ p h

  keep_congr : (f g : P → Bool) → ((q : P) → f q ≡ g q) → (xs : List P) → keep f xs ≡ keep g xs
  keep_congr f g h xs = ap (λ k. keep k xs) (fun_ext h)

  rank_after_none :
      (before : List P) (p : P)
      → All (λ q. same q p ≡ false) before
      → rank_after before p ≡ suc (length before)
  rank_after_none [] p h = refl
  rank_after_none (q ∷ before) p (first, rest) = rw first (ap suc (rank_after_none before p rest))

  All-last :
      (xs : List P) (p₀ p : P) → All (λ q. same q p ≡ false) (xs ++ p₀ ∷ []) → same p₀ p ≡ false
  All-last [] p₀ p (h, _) = h
  All-last (x ∷ xs) p₀ p (_, h) = All-last xs p₀ p h

  module _ (equality : IsKeyEquality same) where
    rank_after-peer :
        (xs : List P) (p₀ p : P)
        → same p p₀ ≡ true
        → rank_after (xs ++ p₀ ∷ []) p ≡ rank_after xs p₀
    rank_after-peer xs p₀ p peers =
        let turned = equality.symmetric p₀ p ∙ peers in
        ap (λ l. suc (length l))
          (keep-append (λ q. not (same q p)) xs (p₀ ∷ [])
            ∙ rw turned (append-nil (keep (λ q. not (same q p)) xs))
            ∙ keep_congr (λ q. not (same q p)) (λ q. not (same q p₀))
                (λ q. ap not (
                  equality.symmetric q p
                  ∙ equality.transitive p p₀ q peers
                  ∙ equality.symmetric p₀ q))
                xs)

    rank_loop :
        (xs : List P) (p₀ : P) (dense : ℕ) (peers : List P)
        → IsGrouped (xs ++ p₀ ∷ []) peers
        → rank_rows same "rank" (length (xs ++ p₀ ∷ [])) dense (some (p₀, rank_after xs p₀)) peers
          ≡ ranks (xs ++ p₀ ∷ []) peers
    unfolding rank_rows
    rank_loop xs p₀ dense [] grouped = refl
    rank_loop xs p₀ dense (p ∷ peers) (here, later) =
        let before = xs ++ p₀ ∷ [] in
        let longer : suc (length before) ≡ length (before ++ p ∷ []) =
          omega (arith, length-append before (p ∷ [])) in
        let value : (if not (same p p₀) then suc (length before) else rank_after xs p₀)
            ≡ rank_after before p =
          elim here [
            | inl last ↦
                let peer = HasLast-append xs p₀ p last in
                rw peer (sym (rank_after-peer xs p₀ p peer))
            | inr none_of ↦
                rw (equality.symmetric p p₀ ∙ All-last xs p₀ p none_of)
                  (sym (rank_after_none before p none_of))
          ] in
        ap₂
          (λ v i.
            v
            ∷ rank_rows same "rank" i (if not (same p p₀) then suc dense else dense) (some (p, v))
                peers)
          value longer
        ∙ ap (λ l. rank_after before p ∷ l)
            (rank_loop before p (if not (same p p₀) then suc dense else dense) peers later)

    -- Where equality of peer keys is an equivalence and peers stand together, the rank of a row is
    -- one more than the number of rows before it that are no peers of it.
    pub rank_rows-ranks :
        (peers : List P)
        → IsGrouped [] peers
        → rank_rows same "rank" 0 0 none peers ≡ ranks [] peers
    unfolding rank_rows
    rank_rows-ranks [] grouped = refl
    rank_rows-ranks (p ∷ peers) (first, grouped) = ap (λ l. 1 ∷ l) (rank_loop [] p 1 peers grouped)
