-- ===== src/Worker/Arguments.antt =====
-- The arguments of a tool call: the JSON that the model wrote. A value that is no text is known by
-- whether Python takes it as true, and by its `str`.
use ufoundry.Base.{Bool, true, false, Option, none, some, [], Text, text_eq, Dict, lookup}

pub data Value : Type 0 where
  text : Text → Value
  other : Bool → Text → Value

pub data Arguments : Type 0 where
  object : Dict Text Value → Arguments
  no_object : Arguments

-- str(value or "")
pub text_or_empty : Option Value → Text
text_or_empty none = []
text_or_empty (some (text s)) = s
text_or_empty (some (other true shown)) = shown
text_or_empty (some (other false shown)) = []

-- args.get(name), where `args` is {} for arguments that are no dict
pub argument : Arguments → Text → Option Value
argument (object d) name = lookup name d
argument no_object name = none
