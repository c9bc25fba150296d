-- ===== src/Memory/Releases.antt =====
-- `release` of memory.py: what it keeps, whether it succeeds or raises.
use distributed_sql.Prelude.{
  Result-cases, ℕ, zero, suc, ◌≡◌, refl, ap, sym, ◌∙◌, Option, some, arith, true, get_elem?, inl,
  inr, ok, err, subst,
}
use distributed_sql.Prelude.Int.{ℤ, pos, negsuc, ◌≤ℤ◌, leb_ℤ, -ℤ_parts}
use distributed_sql.Memory.{Account, Heap, MemoryError, discharge, chain, release}
use distributed_sql.Memory.Update.{elem}
use distributed_sql.Memory.Chain.{IsTree}
use distributed_sql.Memory.Limits.{IsWithin, IsValid, get_elem?-release, elem-chain, map_cases}

discharge-IsWithin : (n : ℕ) (x : Account) → IsWithin x → IsWithin (discharge (pos n) x)
discharge-IsWithin n x w =
    omega (arith, w.current_fits, w.peak_fits, w.peak_seen, -ℤ_parts x.current_bytes (pos n))

release_atomic :
    (size : ℤ) (self : ℕ) (h : Heap) (e : MemoryError)
    → (release size self h).0 ≡ err e
    → (release size self h).1 ≡ h
unfolding release
release_atomic (negsuc n) self h e p = refl
release_atomic (pos zero) self h e p = refl
release_atomic (pos (suc n)) self h e p = ground arith

release-held :
    (n self : ℕ) (h : Heap) (x : Account)
    → get_elem? h self ≡ some x
    → (release (pos (suc n)) self h).0 ≡ ok tt
    → leb_ℤ (pos (suc n)) x.current_bytes ≡ true
unfolding release
release-held n self h x found done = ground (arith, found)

discharge-owned :
    (n : ℕ) (x : Account)
    → leb_ℤ (pos (suc n)) x.current_bytes ≡ true
    → pos 0 ≤ℤ (discharge (pos (suc n)) x).current_bytes
discharge-owned n x held = ground (arith, -ℤ_parts x.current_bytes (pos (suc n)))

release_within :
    (size : ℤ) (self : ℕ) (h : Heap) → IsTree h → IsValid h → IsValid (release size self h).1
release_within (negsuc n) self h tree v = unfold release in v
release_within (pos zero) self h tree v = unfold release in v
release_within (pos (suc n)) self h tree v = elim (Result-cases (release (pos (suc n)) self h).0) [
  | inl (tt, done) ↦ λ a y g.
      elim (map_cases (elem a (chain h self)) (get_elem? h a)
        (sym (get_elem?-release n self h a tree done) ∙ g)) [
          | inl (x, found, made, m) ↦
              subst IsWithin (sym made) (discharge-IsWithin (suc n) x (v a x found))
          | inr (found, m) ↦ v a y found
        ]
  | inr (e, failed) ↦ subst IsValid (sym (release_atomic (pos (suc n)) self h e failed)) v
]

owned_as :
    {x y : Account}
    → ◌≡◌ {A = Option Account} (some x) (some y)
    → pos 0 ≤ℤ x.current_bytes
    → pos 0 ≤ℤ y.current_bytes
owned_as {x} {y} e owned =
    let same : x ≡ y = cc in subst (λ (a : Account). pos 0 ≤ℤ a.current_bytes) same owned

release_owned :
    (size : ℤ) (self : ℕ) (h : Heap) (x y : Account)
    → IsTree h
    → get_elem? h self ≡ some x
    → pos 0 ≤ℤ x.current_bytes
    → get_elem? (release size self h).1 self ≡ some y
    → pos 0 ≤ℤ y.current_bytes
release_owned (negsuc n) self h x y tree found owned after =
    owned_as {y = y} (sym found ∙ (unfold release in after)) owned
release_owned (pos zero) self h x y tree found owned after =
    owned_as {y = y} (sym found ∙ (unfold release in after)) owned
release_owned (pos (suc n)) self h x y tree found owned after =
    elim (Result-cases (release (pos (suc n)) self h).0) [
      | inl (_, done) ↦
          owned_as {x = discharge (pos (suc n)) x} {y = y}
            (sym (get_elem?-release n self h self tree done ∙ rw (elem-chain h self, found))
              ∙ after)
            (discharge-owned n x (release-held n self h x found done))
      | inr (e, failed) ↦
          owned_as {x = x} {y = y}
            (sym found
              ∙ ap (λ k. get_elem? k self) (sym (release_atomic (pos (suc n)) self h e failed))
              ∙ after)
            owned
    ]

-- In a heap whose accounts are younger than their parents, whether a release succeeds or raises: where
-- every account is within its limit, it still is; the account that releases keeps a balance that is
-- not negative; and a release that raises changes nothing.
pub release-IsValid :
    (size : ℤ) (self : ℕ) (h : Heap) (x : Account)
    → IsTree h
    → IsValid h
    → get_elem? h self ≡ some x
    → pos 0 ≤ℤ x.current_bytes
    → IsValid (release size self h).1
      × ((y : Account) → get_elem? (release size self h).1 self ≡ some y → pos 0 ≤ℤ y.current_bytes)
      × ((e : MemoryError) → (release size self h).0 ≡ err e → (release size self h).1 ≡ h)
release-IsValid size self h x tree v found owned = (
  release_within size self h tree v,
  (λ y after. release_owned size self h x y tree found owned after),
  release_atomic size self h,
)
