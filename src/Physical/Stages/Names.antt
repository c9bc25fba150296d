-- ===== src/Physical/Stages/Names.antt =====
-- The identities of stages: a number is read back from the digits that end a name, so that stages of
-- different numbers have different names.
use Prim.Native.Char.{code}
use Prim.Native.String.{String, ◌++◌, count}
use text.Mathlib.TextLemmas.{nil-append, cons-append, append-nil, append_cancel_left}
use distributed_sql.Prelude.{
  ℕ, zero, suc, ◌+◌, ◌-◌, ◌*◌, ◌/◌, ◌%◌, ◌<◌, ◌≡◌, refl, sym, ap, ◌∙◌, [], ◌∷◌, str_concat, arith,
  ltb, Bool-cases, inl, inr,
}
use distributed_sql.Planner.Values.{decimal_digits, digit}
use distributed_sql.Physical.Stages.{stage_name, padded, zeros}

unfoldable value_of : ℕ → String → ℕ
value_of n String.[] = n
value_of n (String.◌∷◌ c s) = value_of (n * 10 + (code c - 48)) s

value_of-append : (n : ℕ) (s t : String) → value_of n (s ++ t) ≡ value_of (value_of n s) t
unfolding value_of
value_of-append n String.[] t = ap (value_of n) (nil-append t)
value_of-append n (String.◌∷◌ c s) t =
    ap (value_of n) (cons-append c s t) ∙ value_of-append (n * 10 + (code c - 48)) s t

value_of-digit : (n d : ℕ) → d < 10 → value_of n (digit d) ≡ n * 10 + d
unfolding value_of
value_of-digit n d small = go d small
  where
    go : (d : ℕ) → d < 10 → value_of n (digit d) ≡ n * 10 + d
    go zero h = refl
    go (suc zero) h = refl
    go (suc (suc zero)) h = refl
    go (suc (suc (suc zero))) h = refl
    go (suc (suc (suc (suc zero)))) h = refl
    go (suc (suc (suc (suc (suc zero))))) h = refl
    go (suc (suc (suc (suc (suc (suc zero)))))) h = refl
    go (suc (suc (suc (suc (suc (suc (suc zero))))))) h = refl
    go (suc (suc (suc (suc (suc (suc (suc (suc zero)))))))) h = refl
    go (suc (suc (suc (suc (suc (suc (suc (suc (suc zero))))))))) h = refl
    go (suc (suc (suc (suc (suc (suc (suc (suc (suc (suc d)))))))))) h = absurd (omega arith)

digits_back : (fuel n : ℕ) → n < fuel → value_of 0 (decimal_digits fuel n) ≡ n
unfolding decimal_digits
digits_back zero n enough = absurd (omega arith)
digits_back (suc fuel) n enough = elim (Bool-cases (ltb n 10)) [
  | inl small ↦ rw small (value_of-digit 0 n (ground arith) ∙ omega arith)
  | inr large ↦
      let ih = digits_back fuel (n / 10) (ground arith) in
      rw large (
        value_of-append 0 (decimal_digits fuel (n / 10)) (digit (n % 10))
        ∙ ap (λ m. value_of m (digit (n % 10))) ih
        ∙ value_of-digit (n / 10) (n % 10) (omega arith)
        ∙ omega arith)
]

value_of-zeros : (k : ℕ) → value_of 0 (zeros k) ≡ 0
unfolding value_of
value_of-zeros zero = refl
value_of-zeros (suc k) =
    value_of-append 0 "0" (str_concat (zeros k ∷ []))
    ∙ ap (value_of 0) (append-nil (zeros k))
    ∙ value_of-zeros k

padded_back : (width n : ℕ) → value_of 0 (padded width n) ≡ n
padded_back width n =
    let digits = decimal_digits (suc n) n in
    let lead = zeros (width - count digits) in
    value_of-append 0 lead (str_concat (digits ∷ []))
    ∙ ap (λ m. value_of m (str_concat (digits ∷ []))) (value_of-zeros (width - count digits))
    ∙ ap (value_of 0) (append-nil digits)
    ∙ digits_back (suc n) n (omega arith)

-- Stages of one query that have one name have one number.
pub stage_name_injective :
    (query_id : String) (n m : ℕ) → stage_name query_id n ≡ stage_name query_id m → n ≡ m
unfolding stage_name
stage_name_injective query_id n m e =
    let tail = append_cancel_left "-stage-" _ _ (append_cancel_left query_id _ _ e) in
    let same : padded 3 n ≡ padded 3 m =
      sym (append-nil (padded 3 n)) ∙ tail ∙ append-nil (padded 3 m) in
    sym (padded_back 3 n) ∙ ap (value_of 0) same ∙ padded_back 3 m
