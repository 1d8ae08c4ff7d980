-- ===== src/Spec/Macro.antt =====
-- The macro and Lua lexers of internal/rpm/spec/tree.go, which find where the body of a %define or
-- %global ends. Where Go steps an index through a line, the model steps through what is left of it.
-- The counters are decremented only above zero, so they are natural numbers.
use azldev.Prelude.{ℕ, suc, zero, ◌+◌, ◌-◌, ◌%◌, [], ◌∷◌, ◌++◌, Bool, true, false, ◌&&◌, ◌||◌, not}
use azldev.Prelude.{Option, some, none, if◌then◌else◌, ◌=?◌, ltb, length, drop}
use azldev.Text.{Text, ◌==◌, codes, has_prefix, has_suffix}

-- luaState; a quote of 0 is none.
pub record LuaState : Type 0 where
  pub braces : ℕ
  pub nested_rpm : ℕ
  pub quote : ℕ
  pub escaped : Bool
  pub long_close : Text

abbrev pub new_lua : LuaState
new_lua = record { braces = 0; nested_rpm = 0; quote = 0; escaped = false; long_close = [] }

-- macroState
pub record MacroState : Type 0 where
  pub depth : ℕ
  pub escaped_braces : ℕ
  pub shell_braces : ℕ
  pub raw_braces : ℕ
  pub lua : Option LuaState

abbrev pub new_macro : MacroState
new_macro = record { depth = 0; escaped_braces = 0; shell_braces = 0; raw_braces = 0; lua = none }

abbrev is_some {ℓ} : {A : Type ℓ} → Option A → Bool
is_some none = false
is_some (some a) = true

-- macroState.open
unfoldable pub is_open : MacroState → Bool
is_open state = ltb 0 state.depth || ltb 0 state.escaped_braces || is_some state.lua

-- The '=' run of a long bracket, and whether '[' ends it.
long_delimiter_from : Text → Text → Option Text
long_delimiter_from run [] = none
long_delimiter_from run (c ∷ text) =
    let more = long_delimiter_from (run ++ (c ∷ [])) text in
    if c =? b'=' then more else if c =? b'[' then some run else none

-- luaLongDelimiter
unfoldable pub lua_long_delimiter : Text → Option Text
unfolding long_delimiter_from
lua_long_delimiter [] = none
lua_long_delimiter (c ∷ text) = if c =? b'[' then long_delimiter_from [] text else none

-- One character inside a quoted Lua string.
in_quote : LuaState → ℕ → LuaState
in_quote state c =
    if state.escaped
    then record state { escaped = false }
    else if c =? b'\\'
    then record state { escaped = true }
    else if c =? state.quote
    then record state { quote = 0 }
    else state

abbrev long_close_of : Text → Text
long_close_of delimiter = codes "]" ++ (delimiter ++ codes "]")

-- What one round of luaState.consume does: go on with a state from a later place, or end the line,
-- or close the outer expansion.
pub data Round : Type 0 where
  go_on : LuaState → Text → Round
  line_end : Round
  closed : Text → LuaState → Round

-- The switch on plain characters.
plain_round : LuaState → ℕ → Text → Round
plain_round state c text =
    if c =? b'\'' || c =? b'"'
    then go_on (record state { quote = c }) text
    else if c =? b'%' && has_prefix text (codes "{")
    then go_on (record state { nested_rpm = state.nested_rpm + 1 }) (drop 1 text)
    else if c =? b'}'
    then (if ltb 0 state.nested_rpm
        then go_on (record state { nested_rpm = state.nested_rpm - 1 }) text
        else if ltb 0 state.braces
        then go_on (record state { braces = state.braces - 1 }) text
        else closed text state)
    else if c =? b'{'
    then go_on (record state { braces = state.braces + 1 }) text
    else go_on state text

comment_round : LuaState → Text → Round
comment_round state text = elim (lua_long_delimiter (drop 2 text)) [
  | some delimiter ↦
      go_on (record state { long_close = long_close_of delimiter })
        (drop (length delimiter + 4) text)
  | none ↦ line_end
]

lua_round : LuaState → ℕ → Text → Round
unfolding in_quote plain_round comment_round
lua_round state c text =
    if not (state.long_close == [])
    then (if has_prefix (c ∷ text) state.long_close
        then go_on (record state { long_close = [] }) (drop (length state.long_close) (c ∷ text))
        else go_on state text)
    else if not (state.quote =? 0)
    then go_on (in_quote state c) text
    else elim (lua_long_delimiter (c ∷ text)) [
      | some delimiter ↦
          go_on (record state { long_close = long_close_of delimiter })
            (drop (length delimiter + 2) (c ∷ text))
      | none ↦
          if has_prefix (c ∷ text) (codes "--")
          then comment_round state (c ∷ text)
          else plain_round state c text
    ]

-- luaState.consume: the state after the fragment, what is left of the line, and whether the outer
-- expansion closed. Each round takes at least one character, so the length is fuel enough.
consume_loop : ℕ → LuaState → Text → LuaState × Text × Bool
unfolding lua_round
consume_loop fuel state [] = (state, [], false)
consume_loop zero state (c ∷ text) = (state, [], false)
consume_loop (suc fuel) state (c ∷ text) = elim (lua_round state c text) [
  | go_on state' rest ↦ consume_loop fuel state' rest
  | line_end ↦ (state, [], false)
  | closed rest state' ↦ (state', rest, true)
]

unfoldable pub consume : LuaState → Text → LuaState × Text × Bool
unfolding consume_loop
consume state text = consume_loop (length text) state text

-- The number of '%' at the start, and what follows them.
percent_run : Text → ℕ × Text
percent_run [] = (0, [])
percent_run (c ∷ text) =
    let (n, rest) = percent_run text in if c =? b'%' then (n + 1, rest) else (0, c ∷ text)

-- macroStateAfterPercentRun: the new state, what is left, and the character before it.
macro_state_after_percent_run : Text → MacroState → MacroState × Text × ℕ
unfolding percent_run
macro_state_after_percent_run text state =
    let (n, after) = percent_run text in
    if not (has_prefix after (codes "{"))
    then (state, after, b'%')
    else if n % 2 =? 0
    then (if ltb 0 state.depth
        then (record state { escaped_braces = state.escaped_braces + 1 }, drop 1 after, b'{')
        else (state, drop 1 after, b'{'))
    else if has_prefix after (codes "{lua:")
    then (record state { depth = state.depth + 1; lua = some new_lua }, drop 5 after, b':')
    else (record state { depth = state.depth + 1 }, drop 1 after, b'{')

-- consumeEscapedBracedMacro
consume_escaped_braced_macro : ℕ → MacroState → MacroState
consume_escaped_braced_macro c state =
    if c =? b'{'
    then record state { escaped_braces = state.escaped_braces + 1 }
    else if c =? b'}'
    then record state { escaped_braces = state.escaped_braces - 1 }
    else state

-- The switch of macroStateAfter, for the characters that take one place.
brace_step : ℕ → MacroState → MacroState
brace_step c state =
    if c =? b'}' && ltb 0 state.shell_braces
    then record state { shell_braces = state.shell_braces - 1 }
    else if c =? b'{' && ltb 0 state.depth
    then record state { raw_braces = state.raw_braces + 1 }
    else if c =? b'}' && ltb 0 state.raw_braces
    then record state { raw_braces = state.raw_braces - 1 }
    else if c =? b'}' && ltb 0 state.depth
    then record state { depth = state.depth - 1 }
    else state

after_lua : MacroState → LuaState → Bool → MacroState
after_lua state lua true = record state { lua = none; depth = state.depth - 1 }
after_lua state lua false = record state { lua = some lua }

-- One round of the loop of macroStateAfter, at the character after `before`.
macro_round : MacroState → ℕ → ℕ → Text → MacroState × Text × ℕ
unfolding macro_state_after_percent_run consume_escaped_braced_macro brace_step after_lua consume
macro_round state before c text = elim state.lua [
  | some lua ↦
      let (lua', rest, closes) = consume lua (c ∷ text) in (after_lua state lua' closes, rest, b'}')
  | none ↦
      if ltb 0 state.escaped_braces
      then (consume_escaped_braced_macro c state, text, c)
      else if c =? b'%' && not (before =? b'%')
      then macro_state_after_percent_run (c ∷ text) state
      else if c =? b'$' && has_prefix text (codes "{")
      then (record state { shell_braces = state.shell_braces + 1 }, drop 1 text, b'{')
      else (brace_step c state, text, c)
]

macro_loop : ℕ → MacroState → ℕ → Text → MacroState
unfolding macro_round
macro_loop fuel state before [] = state
macro_loop zero state before (c ∷ text) = state
macro_loop (suc fuel) state before (c ∷ text) =
    let (state', rest, before') = macro_round state before c text in
    macro_loop fuel state' before' rest

fresh_line : MacroState → MacroState
fresh_line state = elim state.lua [
  | none ↦ state
  | some lua ↦ record state { lua = some (record lua { escaped = false }) }
]

-- macroStateAfter
unfoldable pub macro_state_after : Text → MacroState → MacroState
unfolding macro_loop fresh_line
macro_state_after line state = fresh_line (macro_loop (length line) state 0 line)

-- macroBodyStateAfter
unfoldable pub macro_body_state_after : Text → MacroState → MacroState × Bool
macro_body_state_after line state =
    let state' = macro_state_after line state in
    (state', has_suffix line (codes "\\") || is_open state')
