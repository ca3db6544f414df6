-- ===== src/Chat/Decisions/Fences.antt =====
-- The code fence that an answer may stand in (backend/app/chat/agent_loop.py).
use bug_free_enigma.Base.{String, Bool, false, not, ◌&&◌, Option, none, some, ◌==◌, if◌then◌else◌}
use bug_free_enigma.Base.Text.{strip}
use text.Mathlib.Text.{starts_with}

-- `s.startswith(prefix)`
abbrev pub has_prefix : String → String → Bool
has_prefix prefix s = starts_with s prefix

-- the text behind so long a prefix
unfoldable pub behind : String → String → String
behind String.[] s = s
behind (String.◌∷◌ _ p) String.[] = String.[]
behind (String.◌∷◌ _ p) (String.◌∷◌ _ s) = behind p s

-- the text in front of a suffix
unfoldable pub before_suffix : String → String → Option String
before_suffix suffix String.[] = if suffix == "" then some "" else none
before_suffix suffix (String.◌∷◌ c s) =
    let rest = before_suffix suffix s in
    if suffix == String.◌∷◌ c s
    then some ""
    else elim rest [ none ↦ none | some text ↦ some (String.◌∷◌ c text) ]

abbrev is_closed : String → Bool
is_closed t = elim (before_suffix "}" t) [ none ↦ false | some front ↦ not (front == "") ]

-- what the group `(\{.*\})` matches of a text, between white space
abbrev braces_of : String → Option String
braces_of s =
    let inner = strip s in if has_prefix "{" inner && is_closed inner then some inner else none

-- `re.fullmatch` of three backquotes, perhaps "json", an object between braces, three backquotes;
-- a text that does not start with backquotes is taken as it stands
unfoldable pub unfenced : String → Option String
unfolding behind before_suffix
unfenced raw =
    if not (has_prefix "```" raw) then some raw else elim (before_suffix "```" (behind "```" raw)) [
      | none ↦ none
      | some inside ↦
          if has_prefix "json" inside then braces_of (behind "json" inside) else braces_of inside
    ]
