-- ===== src/Agent/Script.antt =====
-- src/agent/connectScript.ts: the dialogue that leads from the first hop to WPS.
pub mod Dialogue
pub mod Sends
use pdn_whatspac_client.Base.{
  ℕ, zero, suc, ◌+◌, ◌%◌, Bool, true, false, Option, none, some, List, [], ◌∷◌, ◌++◌, map, Text,
  Bytes, length, drop, index_of, if◌then◌else◌,
}

-- `ConnectHop`; its `id` and `hop` label are not read.
pub record Hop : Type 0 where
  pub cmd : Text
  pub val : Text

abbrev pub ConnectScript : Type 0
ConnectScript = List Hop

pub data ScriptError : Type 0 where
  is_empty : ScriptError
  no_cmd : ℕ → ScriptError
  no_val : ℕ → ScriptError

abbrev pub missing : Text → Bool
missing [] = true
missing (c ∷ s) = false

unfoldable pub check_hops : ℕ → List Hop → Option ScriptError
check_hops i [] = none
check_hops i (h ∷ hs) =
    if missing h.cmd
    then some (no_cmd i)
    else if missing h.val
    then some (no_val i)
    else check_hops (i + 1) hs

-- `validateConnectScript`: the error that it throws, if any.
unfoldable pub validate_connect_script : ConnectScript → Option ScriptError
unfolding check_hops
validate_connect_script [] = some is_empty
validate_connect_script (h ∷ hs) = check_hops 0 (h ∷ hs)

-- What the runner calls: `send`, `onDone` and `onError`.
pub data Action : Type 0 where
  send : Bytes → Action
  on_done : Bytes → Action
  on_error : ℕ → Action

pub record Runner : Type 0 where
  pub hop_index : ℕ
  pub text : Text
  pub finished : Bool
  pub armed : Bool

abbrev pub new : Runner
new = record { hop_index = 0; text = []; finished = false; armed = false }

-- `Buffer.from(s, "latin1")`.
abbrev pub latin1 : Text → Bytes
latin1 = map (λ u. u % 256)

-- `next.cmd + "\r"` on the wire.
abbrev pub command : Hop → Bytes
command h = latin1 (h.cmd ++ 13 ∷ [])

-- `start`: the timeout is armed.
abbrev pub start : Runner → Runner
start r = record r { armed = true }

-- `cancel`.
unfoldable pub cancel : Runner → Runner
cancel r = record r { finished = true; armed = false }

abbrev finish : ℕ → Text → Runner × List Action
finish i text = (
  record { hop_index = i; text = text; finished = true; armed = false },
  on_done (latin1 text) ∷ [],
)

abbrev pub stay : Bool → ℕ → Text → Runner × List Action
stay armed i text = (record { hop_index = i; text = text; finished = false; armed = armed }, [])

abbrev pub then_send : Bytes → Runner × List Action → Runner × List Action
then_send data' (r, actions) = (r, send data' ∷ actions)

-- The `while` loop of `feed`, over the hops from `hopIndex` on.
unfoldable pub advance : Bool → List Hop → ℕ → Text → Runner × List Action
advance armed [] i text = stay armed i text
advance armed (h ∷ []) i text = elim (index_of text h.val) [
  | none ↦ stay armed i text
  | some k ↦ finish (i + 1) (drop (k + length h.val) text)
]
advance armed (h ∷ next ∷ hs) i text = elim (index_of text h.val) [
  | none ↦ stay armed i text
  | some k ↦
      then_send (command next) (advance armed (next ∷ hs) (i + 1) (drop (k + length h.val) text))
]

-- `feed`: the chunk is read as Latin-1, a character for each byte.
unfoldable pub feed : ConnectScript → Runner → Bytes → Runner × List Action
unfolding advance
feed script r chunk =
    if r.finished
    then (r, [])
    else advance r.armed (drop r.hop_index script) r.hop_index (r.text ++ chunk)

-- The timeout's callback.
unfoldable pub on_timeout : Runner → Runner × List Action
on_timeout r =
    if r.finished
    then (r, [])
    else (record r { finished = true; armed = false }, on_error r.hop_index ∷ [])
