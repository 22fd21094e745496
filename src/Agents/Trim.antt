-- ===== src/Agents/Trim.antt =====
-- ufoundry/agents/agent.py: the messages of a conversation, and `_trim_messages`, which keeps the
-- head and a tail of them.
pub mod Tail
use ufoundry.Base.{
  ℕ, zero, suc, ◌+◌, ◌-◌, Bool, true, false, ◌||◌, ◌==◌, Option, none, some, List, [], ◌∷◌, ◌++◌,
  Text, codes, text_eq, if◌then◌else◌, leb, length, get_elem?, take, drop,
}

-- A call in an assistant's message: its id, the tool's name and the arguments as text.
pub record CallNote : Type 0 where
  pub id : Text
  pub name : Text
  pub arguments : Text

-- A message as the API takes it; a key that is absent is none.
pub record Message : Type 0 where
  pub role : Text
  pub content : Text
  pub name : Option Text
  pub tool_call_id : Option Text
  pub tool_calls : Option (List CallNote)

-- `role in ("system", "user")`
pub is_boundary : Message → Bool
is_boundary m = m.role == codes "system" || m.role == codes "user"

-- Whether `messages[i]` is a boundary.
abbrev pub boundary_at : List Message → ℕ → Bool
boundary_at messages i = elim (get_elem? messages i) [ none ↦ false | some m ↦ is_boundary m ]

-- The loop that moves `tail_start` to the left, by recursion on it.
pub walk_left : List Message → ℕ → ℕ → ℕ
walk_left messages keep_head zero = zero
walk_left messages keep_head (suc n) =
    let further = walk_left messages keep_head n in
    if leb (suc n) keep_head then suc n else if boundary_at messages (suc n) then suc n else further

pub trim_messages : List Message → ℕ → ℕ → List Message
trim_messages messages keep_head keep_tail =
    let tail_start = walk_left messages keep_head (length messages - keep_tail) in
    if leb (length messages) (keep_head + keep_tail)
    then messages
    else if leb tail_start keep_head
    then messages
    else take keep_head messages ++ drop tail_start messages
