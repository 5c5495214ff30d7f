-- ===== src/Lint/Checks/Functions.antt =====
-- .linters/cpp/cpplint.py: class _FunctionState, and CheckForFunctionLengths.
pub mod Triggers
use nebula_chaos.Prelude.{
  ℕ, zero, suc, ◌+◌, ◌*◌, ◌/◌, ◌^◌, Bool, true, false, ◌&&◌, ◌||◌, not, Option, none, some, List,
  [], ◌∷◌, ◌++◌, ltb, leb, ◌==◌, if◌then◌else◌, drop, get_or, Text, codes, text_eq, lstrip,
  split_words, str,
}
use nebula_chaos.Lint.Regex.{
  Pattern, Position, one, seq, alt, many, group, line_end, is_space, all_of, any_of, one_of,
  any_char, some_of, matches, occurs, match_re, search_re, group_of,
}
use nebula_chaos.Lint.Cleansed.{CleansedLines}
use nebula_chaos.Lint.State.{Failure}
use nebula_chaos.Lint.Checks.{report, lit, spaces, word}

pub record FunctionState : Type 0 where
  pub in_a_function : Bool
  pub lines_in_function : ℕ
  pub current_function : Text

unfoldable pub initial : FunctionState
initial = record { in_a_function = false; lines_in_function = 0; current_function = [] }

unfoldable pub begin_function : Text → FunctionState
begin_function function_name = record {
  in_a_function = true;
  lines_in_function = 0;
  current_function = function_name;
}

unfoldable pub count_line : FunctionState → FunctionState
count_line state =
    if state.in_a_function
    then record state { lines_in_function = suc state.lines_in_function }
    else state

unfoldable pub end_function : FunctionState → FunctionState
end_function state = record state { in_a_function = false }

-- The whole part of the logarithm to base 2. Fuel as large as the number is enough.
unfoldable pub log_from : ℕ → ℕ → ℕ
log_from zero n = 0
log_from (suc fuel) n = let more = suc (log_from fuel (n / 2)) in if ltb n 2 then 0 else more

-- int(math.log(lines / base, 2)), which is the logarithm of the whole part of the quotient.
unfoldable pub error_level : ℕ → ℕ → ℕ
unfolding log_from
error_level lines base =
    let level = log_from (lines / base) (lines / base) in if ltb 5 level then 5 else level

unfoldable pub base_trigger : Text → ℕ
unfolding matches
base_trigger name = if matches (seq (lit "T") (alt (lit "EST") (lit "est"))) name then 400 else 250

-- _FunctionState.Check at a verbosity level
unfoldable pub check_function : ℕ → FunctionState → ℕ → List Failure
unfolding error_level base_trigger
check_function verbose state linenum =
    let base = base_trigger (state.current_function) in
    let trigger = base * 2 ^ verbose in
    if state.in_a_function && ltb trigger (state.lines_in_function)
    then report linenum "readability/fn_size" (error_level (state.lines_in_function) base) (
        codes "Small and focused functions are preferred: "
        ++ (state.current_function
            ++ (codes " has "
                ++ (str (state.lines_in_function)
                    ++ (codes " non-comment lines (error triggered by exceeding "
                        ++ (str trigger ++ codes " lines."))))))
    else []

abbrev group_text : Position → ℕ → Text
group_text p n = elim (group_of p n) [ none ↦ [] | some t ↦ t ]

-- (\w(\w|::|\*|\&|\s)*)\(
abbrev declaration : Pattern
declaration =
    seq (group 1 (seq word (many (any_of word (lit "::" ∷ lit "*" ∷ lit "&" ∷ one is_space ∷ [])))))
      (lit "(")

abbrev last_word : List Text → Text
last_word [] = []
last_word (t ∷ []) = t
last_word (t ∷ u ∷ ts) = last_word (u ∷ ts)

-- The name of a function, rather than of a macro.
abbrev is_function_name : Text → Bool
is_function_name name =
    text_eq name (codes "TEST")
    || (text_eq name (codes "TEST_F")
        || not (
            matches (seq (some_of (one (λ c. (leb 65 c && leb c 90) || (c == 95)))) line_end) name))

abbrev starts_at : Option Position → Bool
starts_at none = false
starts_at (some p) = is_function_name (last_word (split_words (group_text p 1)))

unfoldable pub is_starting_func : Text → Bool
unfolding match_re group_of matches split_words
is_starting_func line = starts_at (match_re declaration line)

-- What the loop over the lines from the declaration on finds.
pub data Body : Type 0 where
  no_body : Body
  trivial : Body
  body : (joined_line : Text) → Body

unfoldable pub find_body : Text → List Text → Body
unfolding occurs lstrip
find_body joined [] = no_body
find_body joined (start_line ∷ lines) =
    let joined' = joined ++ (codes " " ++ lstrip start_line) in
    elim (occurs (one_of (codes ";}")) start_line) [
      | true ↦ trivial
      | false ↦ elim (occurs (lit "{") start_line) [
        | true ↦ body joined'
        | false ↦ find_body joined' lines
      ]
    ]

abbrev found_text : Option Position → Text
found_text none = []
found_text (some p) = group_text p 1

-- The name that Begin gets.
unfoldable pub name_function : Text → Text → Text
unfolding search_re group_of matches
name_function line joined_line =
    let function =
      found_text (search_re (seq (group 1 (many (alt word (lit ":")))) (lit "(")) line) in
    if matches (lit "TEST") function
    then function
      ++ found_text
          (search_re (group 1 (all_of (lit "(" ∷ many any_char ∷ lit ")" ∷ []))) joined_line)
    else function ++ codes "()"

abbrev start_function : Text → ℕ → Body → FunctionState → FunctionState × List Failure
start_function line linenum no_body state = (
  state,
  report linenum "readability/fn_size" 5 (codes "Lint failed to find start of function body."),
)
start_function line linenum trivial state = (state, [])
start_function line linenum (body joined_line) state =
    (begin_function (name_function line joined_line), [])

-- CheckForFunctionLengths
unfoldable pub check_for_function_lengths :
    ℕ → CleansedLines → ℕ → FunctionState → FunctionState × List Failure
unfolding is_starting_func find_body name_function begin_function matches check_function
    end_function count_line
check_for_function_lengths verbose clean_lines linenum state =
    let lines = clean_lines.lines in
    let line = get_or lines linenum [] in
    if is_starting_func line
    then start_function line linenum (find_body [] (drop linenum lines)) state
    else if matches (all_of (lit "}" ∷ spaces ∷ line_end ∷ [])) line
    then (end_function state, check_function verbose state linenum)
    else if not (matches (seq spaces line_end) line)
    then (count_line state, [])
    else (state, [])
