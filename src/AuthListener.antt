-- ===== src/AuthListener.antt =====
-- clientlib/authlistener.c and clientlib/listener.c: framesets from the collective management
-- authority, obeyed when they are authenticated. An action is known by a number, and so is the
-- transport; the transport's table of listeners is the list of framesets types that it was told of.
pub mod Obeying
use assimilation_official.Common.{
  ℕ, Bool, true, false, not, ◌&&◌, Option, none, some, List, [], ◌∷◌, ◌++◌, ◌==◌, if◌then◌else◌,
}
use assimilation_official.NetAddr.{NetAddr}
use assimilation_official.FsQueue.Frames.{FrameSet}

-- An entry of `ObeyFrameSetTypeMap`; a null action ends the map.
pub record MapEntry : Type 0 where
  pub framesettype : ℕ
  pub action : Option ℕ

-- `struct _AuthListener` with its base class's transport; the hash table is a list of pairs.
pub record AuthListener : Type 0 where
  pub actionmap : List (ℕ × ℕ)
  pub autoack : Bool
  pub authenticator : Option (FrameSet → NetAddr → Bool)
  pub transport : Option ℕ

-- `g_hash_table_lookup` and `g_hash_table_insert`
unfoldable pub lookup : ℕ → List (ℕ × ℕ) → Option ℕ
lookup fstype [] = none
lookup fstype (entry ∷ rest) = if fstype == entry.0 then some entry.1 else lookup fstype rest

unfoldable pub insert : ℕ → ℕ → List (ℕ × ℕ) → List (ℕ × ℕ)
insert fstype action [] = (fstype, action) ∷ []
insert fstype action (entry ∷ rest) =
    if fstype == entry.0 then (fstype, action) ∷ rest else entry ∷ insert fstype action rest

-- The loop of `authlistener_new` over its map.
unfoldable pub insert_all : List MapEntry → List (ℕ × ℕ) → List (ℕ × ℕ)
insert_all [] hash = hash
insert_all (entry ∷ rest) hash = elim entry.action [
  | none ↦ hash
  | some action ↦ insert_all rest (insert entry.framesettype action hash)
]

-- `authlistener_new`
unfoldable pub authlistener_new :
    List MapEntry → Bool → Option (FrameSet → NetAddr → Bool) → AuthListener
authlistener_new map autoack authenticator = record {
  actionmap = insert_all map [];
  autoack = autoack;
  authenticator = authenticator;
  transport = none;
}

-- What `_authlistener_got_frameset` does: the action that it calls, and the transport that it asks to
-- acknowledge the frameset, which acknowledges those with a sequence number.
pub record Obeyed : Type 0 where
  pub action : Option ℕ
  pub acking : Option ℕ

-- Whether the authenticator, if there is one, accepts the frameset.
unfoldable pub authenticated : AuthListener → FrameSet → NetAddr → Bool
authenticated self fs addr = elim self.authenticator [
  | none ↦ true
  | some authenticator ↦ authenticator fs addr
]

-- `_authlistener_got_frameset`: `none` is a read through a null transport, after the action.
unfoldable pub got_frameset : AuthListener → FrameSet → NetAddr → Option Obeyed
got_frameset self fs addr =
    let action : Option ℕ =
      (if not (authenticated self fs addr) then none else lookup fs.fstype self.actionmap) in
    if not self.autoack
    then some (record { action = action; acking = none })
    else elim self.transport [
      | none ↦ none
      | some transport ↦ some (record { action = action; acking = some transport })
    ]

-- A call of `addListener` of a transport: the listener that a frameset type now has, `none` for NULL.
pub record Added : Type 0 where
  pub on : ℕ
  pub fstype : ℕ
  pub listening : Bool

unfoldable pub add_each : ℕ → Bool → List (ℕ × ℕ) → List Added
add_each transport listening [] = []
add_each transport listening (entry ∷ rest) =
    record { on = transport; fstype = entry.0; listening = listening }
    ∷ add_each transport listening rest

-- `_authlistener_dissociate`, with its calls of the transport.
unfoldable pub dissociate : AuthListener → AuthListener × List Added
dissociate self = elim self.transport [
  | none ↦ (self, [])
  | some transport ↦ (record self { transport = none }, add_each transport false self.actionmap)
]

-- `_authlistener_associate`
unfoldable pub associate : AuthListener → ℕ → AuthListener × List Added
associate self transport =
    let left : AuthListener × List Added = dissociate self in
    (record left.0 { transport = some transport }, left.1 ++ add_each transport true self.actionmap)
