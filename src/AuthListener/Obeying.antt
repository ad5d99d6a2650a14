-- ===== src/AuthListener/Obeying.antt =====
-- clientlib/authlistener.c: which framesets are obeyed.
use assimilation_official.Common.{
  ℕ, ◌≡◌, refl, ap, not, true, false, inl, inr, Bool, Option, none, some, List, [], ◌∷◌, ◌==◌,
  if◌then◌else◌, arith, Bool-cases, Option-cases,
}
use assimilation_official.NetAddr.{NetAddr}
use assimilation_official.FsQueue.Frames.{FrameSet}
use assimilation_official.AuthListener.{
  MapEntry, lookup, insert, insert_all, authlistener_new, authenticated, got_frameset, associate,
  dissociate, AuthListener,
}

-- The action of the last entry of a map for a frameset type, up to the entry that ends the map.
abbrev pub last_action : ℕ → List MapEntry → Option ℕ
last_action fstype [] = none
last_action fstype (entry ∷ rest) =
    let later : Option ℕ = last_action fstype rest in
    elim entry.action [
      | none ↦ none
      | some action ↦ elim later [
        | some other ↦ some other
        | none ↦ if fstype == entry.framesettype then some action else none
      ]
    ]

lookup-insert :
    (k fstype action : ℕ) (hash : List (ℕ × ℕ))
    → lookup k (insert fstype action hash) ≡ (if k == fstype then some action else lookup k hash)
unfolding lookup insert
lookup-insert k fstype action [] = refl
lookup-insert k fstype action (entry ∷ rest) = ground (arith, lookup-insert k fstype action rest)

lookup-insert_all :
    (k : ℕ) (map : List MapEntry) (hash : List (ℕ × ℕ))
    → lookup k (insert_all map hash)
      ≡ (elim (last_action k map) [ none ↦ lookup k hash | some action ↦ some action ])
unfolding insert_all
lookup-insert_all k [] hash = refl
lookup-insert_all k (entry ∷ rest) hash = elim (Option-cases entry.action) [
  | inl e ↦ rw e refl
  | inr (action, e) ↦ rw e (
      ground (
        arith,
        lookup-insert_all k rest (insert entry.framesettype action hash),
        lookup-insert k entry.framesettype action hash,
      ))
]

lookup-made : (k : ℕ) (map : List MapEntry) → lookup k (insert_all map []) ≡ last_action k map
unfolding lookup
lookup-made k map = ground (arith, lookup-insert_all k map [])

-- The action for a frameset: that of the last entry of the map for its type, when the authenticator, if
-- there is one, accepts it.
abbrev pub obeyed :
    List MapEntry → Option (FrameSet → NetAddr → Bool) → FrameSet → NetAddr → Option ℕ
obeyed map none fs addr = last_action fs.fstype map
obeyed map (some authenticator) fs addr =
    if authenticator fs addr then last_action fs.fstype map else none

-- What is looked up is that action.
obeyed_lem :
    (map : List MapEntry) (authenticator : Option (FrameSet → NetAddr → Bool)) (self : AuthListener)
    (fs : FrameSet) (addr : NetAddr)
    → self.authenticator ≡ authenticator
    → (if not (authenticated self fs addr) then none else lookup fs.fstype (insert_all map []))
      ≡ obeyed map authenticator fs addr
unfolding authenticated
obeyed_lem map none self fs addr e = rw (e, authenticated) (lookup-made fs.fstype map)
obeyed_lem map (some authenticator) self fs addr e = elim (Bool-cases (authenticator fs addr)) [
  | inl x ↦ rw (e, authenticated, x) (lookup-made fs.fstype map)
  | inr x ↦ rw (e, authenticated, x) refl
]

-- A new listener that is associated with a transport calls the action of the last entry of its map for
-- the type of a frameset exactly when the authenticator, if there is one, accepts it, and asks the
-- transport to acknowledge every frameset, obeyed or not, exactly when it is told to acknowledge. One
-- that is not associated with a transport does the same when it is not told to acknowledge, and goes
-- through a null pointer when it is.
pub got_frameset-authlistener_new :
    (map : List MapEntry) (autoack : Bool) (authenticator : Option (FrameSet → NetAddr → Bool))
    (transport : ℕ) (fs : FrameSet) (addr : NetAddr)
    → let self = authlistener_new map autoack authenticator in
      let action = obeyed map authenticator fs addr in
      (got_frameset (associate self transport).0 fs addr
        ≡ some (record { action = action; acking = if autoack then some transport else none }))
      × (got_frameset self fs addr
          ≡ (if autoack then none else some (record { action = action; acking = none })))
unfolding got_frameset authlistener_new associate dissociate
got_frameset-authlistener_new map true authenticator transport fs addr =
    let self : AuthListener = (associate (authlistener_new map true authenticator) transport).0 in
    (
      ap (λ a. some (record { action = a; acking = some transport }))
          (obeyed_lem map authenticator self fs addr refl),
      refl,
    )
got_frameset-authlistener_new map false authenticator transport fs addr =
    let self : AuthListener = authlistener_new map false authenticator in
    let joined : AuthListener = (associate self transport).0 in
    (
      ap (λ a. some (record { action = a; acking = none }))
          (obeyed_lem map authenticator joined fs addr refl),
      ap (λ a. some (record { action = a; acking = none }))
          (obeyed_lem map authenticator self fs addr refl),
    )
