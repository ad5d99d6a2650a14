-- ===== src/CryptKeys/Agreeing.antt =====
-- clientlib/cryptframe.c: the map of identities by key id and the map of key ids by identity say the
-- same.
use assimilation_official.Common.{
  ℕ, ◌≡◌, refl, ◌↔◌, ◌≢◌, inl, inr, true, not, ◌&&◌, ◌||◌, none, some, List, [], ◌∷◌, ◌==◌,
  if◌then◌else◌, arith, Option-cases, List-cases, Bool-cases, sym, ap, ◌∙◌,
}
use mathlib.Core.Path.{subst}
use native.Mathlib.Decide.{ℕ_discrete}
use assimilation_official.CryptKeys.{
  KeyMaps, has, without, or_empty, whois_key_id, key_ids_for, associate_new, associate_identity,
  remaining, dissociate_found, dissociate_identity, purge_key_id,
}

-- A key id belongs to an identity in the one map exactly when it does in the other.
abbrev pub AreAgreed : KeyMaps → Type 0
AreAgreed self =
    (key_id identity : ℕ)
    → (whois_key_id self key_id ≡ some identity) ↔ (has key_id (key_ids_for self identity) ≡ true)

has-without :
    (key_id other : ℕ) (l : List ℕ)
    → has other (without key_id l) ≡ (not (other == key_id) && has other l)
unfolding has without
has-without key_id other [] = ground arith
has-without key_id other (x ∷ l) = ground (arith, has-without key_id other l)

or_empty-remaining : (key_id : ℕ) (l : List ℕ) → or_empty (remaining key_id l) ≡ without key_id l
unfolding remaining
or_empty-remaining key_id l = elim (List-cases (without key_id l)) [
  | inl e ↦ rw (e, remaining) refl
  | inr (x, rest, e) ↦ rw (e, remaining) refl
]

has_self : (key_id : ℕ) (l : List ℕ) → has key_id (key_id ∷ l) ≡ true
unfolding has
has_self key_id l = ground arith

has_added :
    (key_id other : ℕ) (l : List ℕ)
    → has other (if has key_id l then l else key_id ∷ l) ≡ (other == key_id || has other l)
unfolding has
has_added key_id other l = elim (ℕ_discrete other key_id) [
  | yes e ↦ elim (Bool-cases (has key_id l)) [
    | inl x ↦
        subst (λ o. has o (if has key_id l then l else key_id ∷ l) ≡ (o == key_id || has o l))
          (sym e) (ground (arith, x))
    | inr x ↦ ground (arith, x, e)
  ]
  | no n ↦ ground (arith, n)
]

-- What the maps have afterwards.
key_ids_for-associate_new :
    (self : KeyMaps) (identity key_id i k : ℕ)
    → has k (key_ids_for (associate_new self identity key_id) i)
      ≡ (i == identity && (k == key_id) || has k (key_ids_for self i))
unfolding associate_new
key_ids_for-associate_new self identity key_id i k = elim (ℕ_discrete i identity) [
  | yes e ↦
      let added = has_added key_id k (key_ids_for self identity) in
      let there : (i == identity) ≡ true = ground (arith, e) in
      subst
        (λ j.
          has k (key_ids_for (associate_new self identity key_id) j)
          ≡ (j == identity && (k == key_id) || has k (key_ids_for self j)))
        (sym e) (ground (arith, added))
  | no n ↦ ground (arith, n)
]

key_ids_for-dissociate_found :
    (self : KeyMaps) (identity key_id i k : ℕ)
    → has k (key_ids_for (dissociate_found self identity key_id) i)
      ≡ (not (i == identity && (k == key_id)) && has k (key_ids_for self i))
unfolding dissociate_found has
key_ids_for-dissociate_found self identity key_id i k =
    elim (Option-cases (self.key_id_map_by_identity identity)) [
      | inl x ↦ elim (ℕ_discrete i identity) [
        | yes e ↦
            subst
              (λ j.
                has k (key_ids_for (dissociate_found self identity key_id) j)
                ≡ (not (j == identity && (k == key_id)) && has k (key_ids_for self j)))
              (sym e) (rw (x, dissociate_found) (ground (arith, x)))
        | no n ↦ ground (arith, x, n)
      ]
      | inr (l, x) ↦
          let left : has k (or_empty (remaining key_id l)) ≡ (not (k == key_id) && has k l) =
            ap (λ m. has k m) (or_empty-remaining key_id l) ∙ has-without key_id k l in
          elim (ℕ_discrete i identity) [
            | yes e ↦
                subst
                  (λ j.
                    has k (key_ids_for (dissociate_found self identity key_id) j)
                    ≡ (not (j == identity && (k == key_id)) && has k (key_ids_for self j)))
                  (sym e) (ground (arith, x, left))
            | no n ↦ ground (arith, x, n)
          ]
    ]

associate_new-AreAgreed :
    (self : KeyMaps) (identity key_id : ℕ)
    → AreAgreed self
    → whois_key_id self key_id ≡ none
    → AreAgreed (associate_new self identity key_id)
unfolding associate_new has
associate_new-AreAgreed self identity key_id a n k i =
    ground (
      arith,
      a k i,
      a k identity,
      a key_id i,
      n,
      key_ids_for-associate_new self identity key_id i k,
    )

dissociate_found-AreAgreed :
    (self : KeyMaps) (identity key_id : ℕ)
    → AreAgreed self
    → whois_key_id self key_id ≡ some identity
    → AreAgreed (dissociate_found self identity key_id)
unfolding dissociate_found
dissociate_found-AreAgreed self identity key_id a n k i =
    ground (arith, a k i, a key_id i, n, key_ids_for-dissociate_found self identity key_id i k)

whois-dissociate_found :
    (self : KeyMaps) (identity key_id : ℕ)
    → whois_key_id (dissociate_found self identity key_id) key_id ≡ none
unfolding dissociate_found
whois-dissociate_found self identity key_id = ground arith

-- Associating an identity with a key id keeps the two maps agreed, whether it is done, was done or is
-- refused.
pub associate_identity-AreAgreed :
    (self : KeyMaps) (identity key_id : ℕ)
    → AreAgreed self
    → AreAgreed (associate_identity self identity key_id).1
unfolding associate_identity
associate_identity-AreAgreed self identity key_id a =
    elim (Option-cases (self.public_key_map key_id)) [
      | inl x ↦ rw (x, associate_identity) a
      | inr (public_key, x) ↦ elim (Option-cases (whois_key_id self key_id)) [
        | inl y ↦ rw (x, y, associate_identity) (associate_new-AreAgreed self identity key_id a y)
        | inr (found, y) ↦ rw (x, y, associate_identity) a
      ]
    ]

-- Purging a key id from maps that agree leaves maps that agree, and the key id without an identity.
pub purge_key_id-AreAgreed :
    (self : KeyMaps) (key_id : ℕ)
    → AreAgreed self
    → AreAgreed (purge_key_id self key_id) × (whois_key_id (purge_key_id self key_id) key_id ≡ none)
unfolding purge_key_id dissociate_identity
purge_key_id-AreAgreed self key_id a = elim (Option-cases (whois_key_id self key_id)) [
  | inl x ↦ rw (x, purge_key_id) (a, x)
  | inr (identity, x) ↦
      rw (x, purge_key_id, x, dissociate_identity)
        (
          dissociate_found-AreAgreed self identity key_id a x,
          whois-dissociate_found self identity key_id,
        )
]

-- To dissociate a key id from an identity that it does not belong to takes its identity away, but
-- leaves it among the key ids of that identity: maps that agreed do not any more.
pub dissociate_other :
    (self : KeyMaps) (identity other key_id : ℕ)
    → AreAgreed self
    → whois_key_id self key_id ≡ some identity
    → other ≢ identity
    → (whois_key_id (dissociate_identity self other key_id).1 key_id ≡ none)
      × (has key_id (key_ids_for (dissociate_identity self other key_id).1 identity) ≡ true)
unfolding dissociate_identity
dissociate_other self identity other key_id a w n =
    rw (w, dissociate_identity)
      (ground (
        arith,
        n,
        a key_id identity,
        w,
        whois-dissociate_found self other key_id,
        key_ids_for-dissociate_found self other key_id identity key_id,
      ))
