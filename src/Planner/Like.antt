-- ===== src/Planner/Like.antt =====
-- The match of `Like.evaluate` in planner/expressions.py. `re.escape` leaves `%` and `_` alone, so
-- the regular expression that it builds is, character by character, `.*`, `.` or the character.
use Prim.Native.Char.{code}
use Prim.Native.String.{String}
use distributed_sql.Prelude.{
  ℕ, ◌≡◌, ◌≢◌, ◌↔◌, refl, sym, Bool, true, false, ◌&&◌, ◌||◌, List, [], ◌∷◌, map, ◌==◌, ==_iff,
  arith, Bool-cases, inl, inr, if◌then◌else◌, subst,
}

abbrev pub codes : String → List ℕ
codes String.[] = []
codes (String.◌∷◌ c s) = code c ∷ codes s

pub data Token : Type 0 where
  any_text any_char : Token
  one : ℕ → Token

unfoldable pub token : ℕ → Token
token c = if c == b'%' then any_text else if c == b'_' then any_char else one c

-- `re.fullmatch` with DOTALL, for an expression of such tokens.
unfoldable pub full_match : List Token → List ℕ → Bool
full_match [] [] = true
full_match [] (c ∷ s) = false
full_match (any_text ∷ ts) [] = full_match ts []
full_match (any_text ∷ ts) (c ∷ s) =
    let here = full_match ts (c ∷ s) in let later = full_match (any_text ∷ ts) s in here || later
full_match (any_char ∷ ts) [] = false
full_match (any_char ∷ ts) (c ∷ s) = full_match ts s
full_match (one d ∷ ts) [] = false
full_match (one d ∷ ts) (c ∷ s) = let rest = full_match ts s in (c == d) && rest

unfoldable pub is_like : String → String → Bool
unfolding full_match token
is_like value pattern = full_match (map token (codes pattern)) (codes value)

-- What LIKE means, on the characters of a pattern and of a text: `%` stands for any text, `_` for any
-- one character, all else for itself.
pub data Likes : List ℕ → List ℕ → Type 0 where
  done : Likes [] []
  stop : {p s : List ℕ} → Likes p s → Likes (b'%' ∷ p) s
  more : {p : List ℕ} {c : ℕ} {s : List ℕ} → Likes (b'%' ∷ p) s → Likes (b'%' ∷ p) (c ∷ s)
  skip : {p : List ℕ} {c : ℕ} {s : List ℕ} → Likes p s → Likes (b'_' ∷ p) (c ∷ s)
  same : {p : List ℕ} {c : ℕ} {s : List ℕ} → c ≢ b'%' → c ≢ b'_' → Likes p s → Likes (c ∷ p) (c ∷ s)

and_parts : (a b : Bool) → (a && b) ≡ true → (a ≡ true) × (b ≡ true)
and_parts a b h = ground arith

token-any_text : token b'%' ≡ any_text
unfolding token
token-any_text = refl

token-any_char : token b'_' ≡ any_char
unfolding token
token-any_char = refl

token-one : (c : ℕ) → c ≢ b'%' → c ≢ b'_' → token c ≡ one c
unfolding token
token-one c a b = ground arith

module _ (p : List ℕ) (rest : (s : List ℕ) → full_match (map token p) s ≡ true → Likes p s) where
  any_text_sound : (s : List ℕ) → full_match (any_text ∷ map token p) s ≡ true → Likes (b'%' ∷ p) s
  unfolding full_match
  any_text_sound [] h = stop (rest [] h)
  any_text_sound (c ∷ s) h = elim (Bool-cases (full_match (map token p) (c ∷ s))) [
    | inl e ↦ stop (rest (c ∷ s) e)
    | inr e ↦ more (any_text_sound s (ground arith))
  ]

  any_char_sound : (s : List ℕ) → full_match (any_char ∷ map token p) s ≡ true → Likes (b'_' ∷ p) s
  unfolding full_match
  any_char_sound [] h = cc
  any_char_sound (c ∷ s) h = skip (rest s h)

  one_sound :
      (d : ℕ) (s : List ℕ)
      → d ≢ b'%'
      → d ≢ b'_'
      → full_match (one d ∷ map token p) s ≡ true
      → Likes (d ∷ p) s
  unfolding full_match
  one_sound d [] a b h = cc
  one_sound d (c ∷ s) a b h =
      let (e, later) = and_parts (c == d) (full_match (map token p) s) h in
      subst (λ x. Likes (d ∷ p) (x ∷ s)) (sym ((==_iff c d).0 e)) (same a b (rest s later))

full_match_sound : (p s : List ℕ) → full_match (map token p) s ≡ true → Likes p s
full_match_sound [] [] h = done
full_match_sound [] (c ∷ s) h = unfold full_match in cc
full_match_sound (d ∷ p) s h = elim (Bool-cases (d == b'%')) [
  | inl percent ↦
      let e = (==_iff d b'%').0 percent in
      subst (λ x. Likes (x ∷ p) s) (sym e)
        (any_text_sound p (full_match_sound p) s (rw (e, token-any_text) at h))
  | inr other ↦ elim (Bool-cases (d == b'_')) [
    | inl underscore ↦
        let e = (==_iff d b'_').0 underscore in
        subst (λ x. Likes (x ∷ p) s) (sym e)
          (any_char_sound p (full_match_sound p) s (rw (e, token-any_char) at h))
    | inr plain ↦
        let a : d ≢ b'%' = λ e. ground (arith, ==_iff d b'%') in
        let b : d ≢ b'_' = λ e. ground (arith, ==_iff d b'_') in
        one_sound p (full_match_sound p) d s a b (rw (token-one d a b) at h)
  ]
]

full_match_any_text :
    (ts : List Token) (s : List ℕ) → full_match ts s ≡ true → full_match (any_text ∷ ts) s ≡ true
unfolding full_match
full_match_any_text ts [] h = h
full_match_any_text ts (c ∷ s) h = ground arith

full_match_more :
    (ts : List Token) (c : ℕ) (s : List ℕ)
    → full_match (any_text ∷ ts) s ≡ true
    → full_match (any_text ∷ ts) (c ∷ s) ≡ true
unfolding full_match
full_match_more ts c s h = ground arith

full_match_skip :
    (ts : List Token) (c : ℕ) (s : List ℕ)
    → full_match ts s ≡ true
    → full_match (any_char ∷ ts) (c ∷ s) ≡ true
unfolding full_match
full_match_skip ts c s h = h

full_match_same :
    (ts : List Token) (c : ℕ) (s : List ℕ)
    → full_match ts s ≡ true
    → full_match (one c ∷ ts) (c ∷ s) ≡ true
unfolding full_match
full_match_same ts c s h = ground arith

full_match_complete : {p s : List ℕ} → Likes p s → full_match (map token p) s ≡ true
full_match_complete done = unfold full_match in refl
full_match_complete (stop {p} {s} h) =
    rw token-any_text (full_match_any_text (map token p) s (full_match_complete h))
full_match_complete (more {p} {c} {s} h) =
    let ih : full_match (any_text ∷ map token p) s ≡ true =
      rw token-any_text at (full_match_complete h) in
    rw token-any_text (full_match_more (map token p) c s ih)
full_match_complete (skip {p} {c} {s} h) =
    rw token-any_char (full_match_skip (map token p) c s (full_match_complete h))
full_match_complete (same {p} {c} {s} a b h) =
    rw (token-one c a b) (full_match_same (map token p) c s (full_match_complete h))

-- The match that LIKE runs accepts exactly the texts that the pattern stands for, read off the
-- characters of the pattern: `%` for any text, `_` for any one character, all else for itself.
pub is_like_iff :
    (value pattern : String) → (is_like value pattern ≡ true) ↔ Likes (codes pattern) (codes value)
unfolding is_like
is_like_iff value pattern = (full_match_sound _ _, full_match_complete)
