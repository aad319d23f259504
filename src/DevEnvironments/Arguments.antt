-- ===== src/DevEnvironments/Arguments.antt =====
-- `splitArgs` of app/api/devenvironments/route.ts: a command line as its arguments.
use cubestack.Prelude.{
  ℕ, ◌==◌, ◌≡◌, refl, ap, arith, Text, codes, is_space, Bool, true, false, not, ◌||◌, all, List, [],
  ◌∷◌, ◌++◌, append_assoc, append-nil, Option, none, some, if◌then◌else◌, join, map, is_some, All,
  ◌∙◌,
}

-- What the loop keeps: the arguments so far, the one being read, its quote, and whether it began.
pub record Split : Type 0 where
  pub argv : List Text
  pub current : Text
  pub quote : Option ℕ
  pub started : Bool

abbrev pub is_quote : ℕ → Bool
is_quote ch = (ch == b'"') || (ch == b'\'')

abbrev pub pushed : List Text → Text → Bool → List Text
pushed argv current started = if started then argv ++ current ∷ [] else argv

abbrev pub split_quoted : Split → ℕ → ℕ → Split
split_quoted s quote ch =
    if ch == quote then record s { quote = none } else record s { current = s.current ++ ch ∷ [] }

abbrev pub split_plain : Split → ℕ → Split
split_plain s ch =
    if is_quote ch
    then record s { quote = some ch; started = true }
    else if is_space ch
    then record {
      argv = pushed s.argv s.current s.started;
      current = [];
      quote = none;
      started = false;
    }
    else record s { current = s.current ++ ch ∷ []; started = true }

-- one round of the loop
unfoldable pub split_step : Split → ℕ → Split
unfolding is_space
split_step s ch = elim (s.quote) [ some quote ↦ split_quoted s quote ch | none ↦ split_plain s ch ]

unfoldable pub split_loop : Split → Text → Split
unfolding split_step
split_loop s [] = s
split_loop s (ch ∷ input) = split_loop (split_step s ch) input

abbrev pub split_end : Split → Option (List Text)
split_end s = if is_some (s.quote) then none else some (pushed s.argv s.current s.started)

unfoldable pub split_args : Text → Option (List Text)
unfolding split_loop
split_args input =
    split_end (split_loop (record { argv = []; current = []; quote = none; started = false }) input)

-- an argument in double quotes
abbrev pub quoted : Text → Text
quoted argument = b'"' ∷ (argument ++ b'"' ∷ [])

abbrev NoQuote : Text → Type 0
NoQuote argument = all (λ c. not (c == b'"')) argument ≡ true

split_loop-append : (s : Split) (a b : Text) → split_loop s (a ++ b) ≡ split_loop (split_loop s a) b
unfolding split_loop
split_loop-append s [] b = refl
split_loop-append s (c ∷ a) b = split_loop-append (split_step s c) a b

-- Within double quotes all is taken as it is.
split_loop-quoted :
    (argv : List Text) (current argument : Text)
    → NoQuote argument
    → split_loop
        (record { argv = argv; current = current; quote = some b'"'; started = true })
        (argument ++ b'"' ∷ [])
      ≡ record { argv = argv; current = current ++ argument; quote = none; started = true }
unfolding split_loop split_step
split_loop-quoted argv current [] h = rw append-nil
split_loop-quoted argv current (c ∷ argument) h = ground (
  arith,
  h,
  split_loop-quoted argv (current ++ c ∷ []) argument,
  append_assoc current (c ∷ []) argument,
)

abbrev at_rest : List Text → Split
at_rest argv = record { argv = argv; current = []; quote = none; started = false }

split_loop-argument :
    (argv : List Text) (argument rest : Text)
    → NoQuote argument
    → split_loop (at_rest argv) (quoted argument ++ rest)
      ≡ split_loop (record { argv = argv; current = argument; quote = none; started = true }) rest
unfolding split_loop split_step is_space
split_loop-argument argv argument rest h =
    split_loop-append _ (argument ++ b'"' ∷ []) rest
    ∙ ap (λ s. split_loop s rest) (split_loop-quoted argv [] argument h)

split_end-quoted :
    (argv args : List Text)
    → All NoQuote args
    → split_end (split_loop (at_rest argv) (join (codes " ") (map quoted args)))
      ≡ some (argv ++ args)
unfolding split_loop split_step is_space
split_end-quoted argv [] h = rw append-nil
split_end-quoted argv (a ∷ []) (h, hs) = rw (split_loop-quoted argv [] a h) refl
split_end-quoted argv (a ∷ b ∷ args) (h, hs) =
    let rest = join (codes " ") (map quoted (b ∷ args)) in
    ap split_end (split_loop-argument argv a (b' ' ∷ rest) h)
    ∙ (split_end-quoted (argv ++ a ∷ []) (b ∷ args) hs
        ∙ ap some (append_assoc argv (a ∷ []) (b ∷ args)))

-- A command line of arguments in double quotes, one space between, is split into these arguments,
-- whatever they hold but double quotes.
pub split_args-quoted :
    (args : List Text)
    → All NoQuote args
    → split_args (join (codes " ") (map quoted args)) ≡ some args
unfolding split_args
split_args-quoted args h = split_end-quoted [] args h
