-- ===== src/Release/Flags.antt =====
-- parseArgs: options that are written as arguments are read back.
use agent_memory_manager.Base.{
  ◌≡◌, refl, true, false, some, List, [], ◌∷◌, ◌++◌, arith, All, append_assoc, append-nil,
}
use agent_memory_manager.Base.Text.{Text, txt, is_empty, trim, starts_with, text_eq}
use agent_memory_manager.Release.{flag_key, is_flag, set_option, parse_from, parse_args}

-- The arguments that options are written as.
pub written : List (Text × Text) → List Text
written [] = []
written ((key, value) ∷ options) = (txt "--" ++ key) ∷ value ∷ written options

-- A key or a value: not empty, and with no white space around it.
abbrev pub IsTrimmed : Text → Type 0
IsTrimmed s = (trim s ≡ s) × (is_empty s ≡ false)

-- An option that can be written: its value does not look like a flag.
abbrev pub IsOption : Text × Text → Type 0
IsOption (key, value) = IsTrimmed key × IsTrimmed value × (is_flag value ≡ false)

abbrev pub Lacks : Text → List (Text × Text) → Type 0
Lacks key options = All (λ o. text_eq o.0 key ≡ false) options

-- Options with keys that differ from those before them.
abbrev pub IsFresh : List (Text × Text) → List (Text × Text) → Type 0
IsFresh before [] = Unit
IsFresh before ((key, value) ∷ options) =
    Lacks key before × IsFresh (before ++ (key, value) ∷ []) options

set_option-Lacks :
    (options : List (Text × Text)) (key value : Text)
    → Lacks key options
    → set_option options key value ≡ options ++ (key, value) ∷ []
unfolding set_option
set_option-Lacks [] key value h = refl
set_option-Lacks (o ∷ options) key value h =
    ground (arith, h.0, set_option-Lacks options key value h.1)

flag_key-written : (key : Text) → trim key ≡ key → flag_key (txt "--" ++ key) ≡ key
unfolding txt
flag_key-written key h = h

is_flag-written : (key : Text) → is_flag (txt "--" ++ key) ≡ true
unfolding txt starts_with
is_flag-written key = refl

parse_from-written :
    (before options : List (Text × Text))
    → All IsOption options
    → IsFresh before options
    → parse_from before (written options) ≡ some (before ++ options)
unfolding parse_from written
parse_from-written before [] h fresh = rw append-nil
parse_from-written before ((key, value) ∷ options) (h, hs) (lacks, fresh) = rw (
  is_flag-written key,
  flag_key-written key h.0.0,
  h.1.0,
  h.0.1,
  h.1.1,
  h.2,
  set_option-Lacks before key value lacks,
  parse_from-written (before ++ (key, value) ∷ []) options hs fresh,
  append_assoc before ((key, value) ∷ []) options,
)

-- Options with distinct keys, with keys and values that are trimmed and not empty, and values that
-- do not look like flags, are read back from the arguments they are written as.
pub parse_args-written :
    (options : List (Text × Text))
    → All IsOption options
    → IsFresh [] options
    → parse_args (written options) ≡ some options
parse_args-written options h fresh = parse_from-written [] options h fresh
