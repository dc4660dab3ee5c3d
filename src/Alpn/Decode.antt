-- ===== src/Alpn/Decode.antt =====
-- A reader of protocol lists, and that `set_alpn` gives NSS what it reads back.
use never_fox.Nss.{Bytes}
use never_fox.Alpn.{encode_alpn, add_each, add}
use mathlib.Core.List.{append-nil, append_assoc}
use never_fox.Base.{
  ◌==◌, if◌then◌else◌, Option-cases, map_option, length, and_then-eq-ok, ok, ℕ, zero, suc, ◌<◌, ◌≡◌,
  refl, subst, inl, inr, Option, none, some, List, [], ◌∷◌, ◌++◌, arith,
}

-- A list of names, each a byte for its length and as many bytes, from within a name of which `left`
-- bytes are missing: the rest of that name, and the names after it. An empty name is no name.
abbrev pub decode_rest : ℕ → Bytes → Option (Bytes × List Bytes)
decode_rest zero [] = some ([], [])
decode_rest zero (n ∷ b) = elim (decode_rest n b) [
  | none ↦ none
  | some (v, vs) ↦ if n == 0 then none else some ([], v ∷ vs)
]
decode_rest (suc left) [] = none
decode_rest (suc left) (x ∷ b) = elim (decode_rest left b) [
  | none ↦ none
  | some (v, vs) ↦ some (x ∷ v, vs)
]

unfoldable pub decode : Bytes → Option (List Bytes)
decode b = map_option (λ r. r.1) (decode_rest 0 b)

decode_name : (v : Bytes) → decode_rest (length v) v ≡ some (v, [])
decode_name [] = refl
decode_name (x ∷ v) = rw (decode_name v) refl

decode_one : (v : Bytes) → 0 < length v → decode_rest 0 (length v ∷ v) ≡ some ([], v ∷ [])
decode_one v h = ground (arith, decode_name v)

-- What follows a list is read after it.
decode-append :
    (left : ℕ) (b more v : Bytes) (vs ws : List Bytes)
    → decode_rest left b ≡ some (v, vs)
    → decode_rest 0 more ≡ some ([], ws)
    → decode_rest left (b ++ more) ≡ some (v, vs ++ ws)
decode-append zero [] more v vs ws e f = ground arith
decode-append zero (n ∷ b) more v vs ws e f = elim (Option-cases (decode_rest n b)) [
  | inl broken ↦ ground (arith, broken)
  | inr ((u, us), read) ↦ ground (arith, read, decode-append n b more u us ws read f)
]
decode-append (suc left) [] more v vs ws e f = ground arith
decode-append (suc left) (x ∷ b) more v vs ws e f = elim (Option-cases (decode_rest left b)) [
  | inl broken ↦ ground (arith, broken)
  | inr ((u, us), read) ↦ ground (arith, read, decode-append left b more u us ws read f)
]

add_inv :
    (v encoded encoded' : Bytes)
    → add v encoded ≡ ok encoded'
    → (encoded' ≡ encoded ++ (length v ∷ v)) × (0 < length v) × (length v < 256)
unfolding add
add_inv v encoded encoded' e = ground arith

add-decode :
    (v encoded encoded' : Bytes) (vs : List Bytes)
    → add v encoded ≡ ok encoded'
    → decode_rest 0 encoded ≡ some ([], vs)
    → decode_rest 0 encoded' ≡ some ([], vs ++ (v ∷ []))
add-decode v encoded encoded' vs e f =
    let (at, some_bytes, _) = add_inv v encoded encoded' e in
    rw at (decode-append 0 encoded (length v ∷ v) [] vs (v ∷ []) f (decode_one v some_bytes))

add_each-decode :
    (ws vs : List Bytes) (encoded encoded' : Bytes)
    → add_each ws encoded ≡ ok encoded'
    → decode_rest 0 encoded ≡ some ([], vs)
    → decode_rest 0 encoded' ≡ some ([], vs ++ ws)
unfolding add_each
add_each-decode [] vs encoded encoded' e f = rw (append-nil vs) (ground (arith, e, f))
add_each-decode (w ∷ ws) vs encoded encoded' e f =
    let (mid, one, rest) = and_then-eq-ok (λ longer. add_each ws longer) (add w encoded) e in
    subst (λ l. decode_rest 0 encoded' ≡ some ([], l)) (append_assoc vs (w ∷ []) ws)
      (add_each-decode ws (vs ++ (w ∷ [])) mid encoded' rest (add-decode w encoded mid vs one f))

-- The bytes that `set_alpn` gives to NSS are a list of protocols: the names after the first, in
-- their order, and then the first.
pub encode_alpn-decode :
    (first : Bytes) (rest : List Bytes) (encoded : Bytes)
    → encode_alpn (first ∷ rest) ≡ ok encoded
    → decode encoded ≡ some (rest ++ (first ∷ []))
unfolding encode_alpn decode
encode_alpn-decode first rest encoded e =
    let (mid, others, last) = and_then-eq-ok (λ b. add first b) (add_each rest []) e in
    rw (add-decode first mid encoded rest last (add_each-decode rest [] [] mid others refl)) refl
