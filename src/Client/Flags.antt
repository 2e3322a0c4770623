-- ===== src/Client/Flags.antt =====
-- The package flag of Go's library, for flags that are texts.
use zylo.Prelude.{
  Bool, true, false, ◌||◌, Option, none, some, List, [], ◌∷◌, any, if◌then◌else◌, eqb,
}
use zylo.Text.{Text, ◌==◌, is_empty, cut}
use zylo.Table.{Table, put}

-- What one argument is: the end of the flags, a flag that is written badly, a flag whose value is
-- the next argument, or one with its value.
pub data Flag : Type 0 where
  last bad : Flag
  bare : Text → Flag
  given : Text → Text → Flag

abbrev parts : Option (Text × Text) → Text → Flag
parts none name = bare name
parts (some (name, value)) _ = given name value

-- A name that is empty or starts with `-` or `=` is refused.
abbrev named : Text → Flag
named [] = bad
named (c ∷ s) = if eqb c b'-' || eqb c b'=' then bad else parts (cut b'=' (c ∷ s)) (c ∷ s)

abbrev after_dash : Text → Flag
after_dash [] = last
after_dash (c ∷ s) = if eqb c b'-' then (if is_empty s then last else named s) else named (c ∷ s)

unfoldable pub read_flag : Text → Flag
unfolding cut
read_flag [] = last
read_flag (c ∷ s) = if eqb c b'-' then after_dash s else last

abbrev is_known : List Text → Text → Bool
is_known known name = any (λ k. k == name) known

-- FlagSet.Parse with ExitOnError: nothing where the client ends. The first argument is a flag that
-- waits for its value.
unfoldable pub parse_from : List Text → Option Text → Table Text → List Text → Option (Table Text)
unfolding read_flag
parse_from known none t [] = some t
parse_from known (some name) t [] = none
parse_from known (some name) t (arg ∷ args) = parse_from known none (put name arg t) args
parse_from known none t (arg ∷ args) = elim (read_flag arg) [
  | last ↦ some t
  | bad ↦ none
  | bare name ↦ elim (is_known known name) [
    | true ↦ parse_from known (some name) t args
    | false ↦ none
  ]
  | given name value ↦ elim (is_known known name) [
    | true ↦ parse_from known none (put name value t) args
    | false ↦ none
  ]
]

unfoldable pub parse_flags : List Text → List Text → Option (Table Text)
unfolding parse_from
parse_flags known args = parse_from known none [] args
