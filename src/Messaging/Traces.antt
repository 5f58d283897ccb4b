-- ===== src/Messaging/Traces.antt =====
-- `sanitize_trace_context` of src/agent_runtime/observability/telemetry.py: which W3C trace headers a
-- message may carry. Texts are read as their code points, and each pattern is written as a test.
use agent_reliability_runtim.Prelude.{
  ℕ, zero, suc, String, Bool, true, false, not, ◌&&◌, ◌||◌, Option, none, some, List, [], ◌∷◌, leb,
  ◌==◌, length, take, code, if◌then◌else◌,
}
use agent_reliability_runtim.Json.{Json, str, Fields, end, field, get_or}
use agent_reliability_runtim.Evaluation.Safety.{is_one_of}
use agent_reliability_runtim.Security.Vault.{drop}

abbrev Text : Type 0
Text = List ℕ

unfoldable pub points : String → Text
points String.[] = []
points (String.◌∷◌ c s) = code c ∷ points s

unfoldable pub every : (ℕ → Bool) → Text → Bool
every test [] = true
every test (c ∷ cs) = test c && every test cs

abbrev in_range : ℕ → ℕ → ℕ → Bool
in_range low high c = leb low c && leb c high

-- `[0-9a-f]`, `[a-z]` and `[a-z0-9]`
abbrev is_hex : ℕ → Bool
is_hex c = in_range b'0' b'9' c || in_range b'a' b'f' c

abbrev is_lower : ℕ → Bool
is_lower c = in_range b'a' b'z' c

abbrev is_alphanumeric : ℕ → Bool
is_alphanumeric c = is_lower c || in_range b'0' b'9' c

-- `[a-z0-9_*/-]`
abbrev is_key_char : ℕ → Bool
is_key_char c = is_alphanumeric c || c == b'_' || c == b'*' || c == b'/' || c == b'-'

-- A text that begins with so many characters of a class, with what follows them.
unfoldable pub eat : ℕ → (ℕ → Bool) → Text → Option Text
eat zero test cs = some cs
eat (suc n) test [] = none
eat (suc n) test (c ∷ cs) = if test c then eat n test cs else none

unfoldable pub then_eat : ℕ → (ℕ → Bool) → Option Text → Option Text
then_eat n test none = none
then_eat n test (some cs) = eat n test cs

unfoldable pub is_all : Option Text → Bool
is_all (some []) = true
is_all _ = false

-- `00-[0-9a-f]{32}-[0-9a-f]{16}-0[0-3]`
unfoldable pub has_parent_form : Text → Bool
unfolding eat then_eat is_all
has_parent_form cs =
    let version = then_eat 1 (λ c. c == b'-') (eat 2 (λ c. c == b'0') cs) in
    let trace = then_eat 1 (λ c. c == b'-') (then_eat 32 is_hex version) in
    let span = then_eat 1 (λ c. c == b'-') (then_eat 16 is_hex trace) in
    is_all (then_eat 1 (in_range b'0' b'3') (then_eat 1 (λ c. c == b'0') span))

-- `int(text, 16) == 0` of hexadecimal digits.
unfoldable pub is_zero_hex : Text → Bool
unfolding every
is_zero_hex cs = every (λ c. c == b'0') cs

unfoldable pub is_parent : String → Bool
unfolding points has_parent_form is_zero_hex drop
is_parent parent =
    let cs = points parent in
    has_parent_form cs
    && not (is_zero_hex (take 32 (drop 3 cs)) || is_zero_hex (take 16 (drop 36 cs)))

-- The text up to the first separator, and the parts after it.
unfoldable pub split_at : ℕ → Text → Text × List Text
split_at sep [] = ([], [])
split_at sep (c ∷ cs) =
    let rest = split_at sep cs in if c == sep then ([], rest.0 ∷ rest.1) else (c ∷ rest.0, rest.1)

-- `text.partition(sep)`; `none` where there is no separator.
unfoldable pub partition : ℕ → Text → Option (Text × Text)
partition sep [] = none
partition sep (c ∷ cs) =
    let rest = partition sep cs in
    if c == sep
    then some ([], cs)
    else elim rest [ none ↦ none | some (key, value) ↦ some (c ∷ key, value) ]

abbrev is_blank_char : ℕ → Bool
is_blank_char c = c == b' ' || c == 9

unfoldable pub strip_start : Text → Text
strip_start [] = []
strip_start (c ∷ cs) = let rest = strip_start cs in if is_blank_char c then rest else c ∷ cs

unfoldable pub strip_end : Text → Text
strip_end [] = []
strip_end (c ∷ cs) = elim (strip_end cs) [
  | [] ↦ if is_blank_char c then [] else c ∷ []
  | d ∷ ds ↦ c ∷ d ∷ ds
]

unfoldable pub starts_with : (ℕ → Bool) → ℕ → Text → Bool
unfolding every
starts_with first most [] = false
starts_with first most (c ∷ cs) = first c && every is_key_char cs && leb (length cs) most

-- `[a-z][a-z0-9_*/-]{0,255}`, or `[a-z0-9][a-z0-9_*/-]{0,240}@[a-z][a-z0-9_*/-]{0,13}`
unfoldable pub is_state_key : Text → Bool
unfolding starts_with partition
is_state_key key = starts_with is_lower 255 key || elim (partition b'@' key) [
  | none ↦ false
  | some (tenant, system) ↦ starts_with is_alphanumeric 240 tenant && starts_with is_lower 13 system
]

unfoldable pub ends_in_space : Text → Bool
ends_in_space [] = false
ends_in_space (c ∷ []) = c == b' '
ends_in_space (c ∷ d ∷ cs) = ends_in_space (d ∷ cs)

unfoldable pub is_state_value : Text → Bool
unfolding every ends_in_space
is_state_value value =
    leb 1 (length value)
    && leb (length value) 256
    && not (ends_in_space value)
    && every (λ c. in_range 32 126 c && not (c == b',' || c == b'=')) value

unfoldable pub same_text : Text → Text → Bool
same_text [] [] = true
same_text (c ∷ cs) (d ∷ ds) = c == d && same_text cs ds
same_text _ _ = false

unfoldable pub is_seen : Text → List Text → Bool
unfolding same_text
is_seen key [] = false
is_seen key (k ∷ seen) = same_text key k || is_seen key seen

-- The loop over the entries; `seen` are the keys of those before.
unfoldable pub are_entries : List Text → List Text → Bool
unfolding partition strip_start strip_end is_seen is_state_key is_state_value
are_entries seen [] = true
are_entries seen (entry ∷ entries) = elim (partition b'=' (strip_end (strip_start entry))) [
  | none ↦ false
  | some (key, value) ↦
      not (is_seen key seen)
      && is_state_key key
      && is_state_value value
      && are_entries (key ∷ seen) entries
]

unfoldable pub is_state : String → Bool
unfolding points split_at are_entries
is_state state =
    let cs = points state in
    let parts = split_at b',' cs in
    leb 1 (length cs)
    && leb (length cs) 512
    && leb (suc (length parts.1)) 32
    && are_entries [] (parts.0 ∷ parts.1)

unfoldable pub state_header : Json → Fields
state_header (str state) = if is_state state then field "tracestate" (str state) end else end
state_header _ = end

unfoldable pub headers : Json → Json → Fields
unfolding state_header
headers (str parent) state =
    if is_parent parent then field "traceparent" (str parent) (state_header state) else end
headers _ state = end

unfoldable pub sanitize_trace_context : Fields → Fields
unfolding headers
sanitize_trace_context carrier =
    headers (get_or "traceparent" (str "") carrier) (get_or "tracestate" (str "") carrier)

-- The loop of `trace_context_from_message` that keeps the headers whose values are texts.
unfoldable pub is_header : String → Json → Bool
is_header key (str s) = is_one_of key ("traceparent" ∷ "tracestate" ∷ [])
is_header key _ = false

unfoldable pub kept_headers : Fields → Fields
unfolding is_header
kept_headers end = end
kept_headers (field k v d) =
    let rest = kept_headers d in if is_header k v then field k v rest else rest
