-- ===== src/Sip/Resolver.antt =====
-- internal/telephony/sip/reconciler.go, syncPinnedResolver: the files of the pinned resolver as texts.
use agentic_voice_sdr.Base.{
  ℕ, suc, String, Bool, true, false, not, ◌&&◌, ◌||◌, List, [], ◌∷◌, ◌++◌, map, Option, none, some,
  if◌then◌else◌, ◌==◌, is_space, is_empty, trim_space, str_eq, any,
}
use agentic_voice_sdr.Base.Lines.{◌<>◌, cut, split_lines, join}
use agentic_voice_sdr.Sip.Pjsip.{split_host_port}
use Prim.Native.Char.{Char, code}
use Prim.Native.String.{compare}
use text.Mathlib.Text.{is_lt}

abbrev pub resolver_marker : String
resolver_marker = "; managed by agentic-voice-sdr GRU-83; do not edit"

abbrev pub is_prefix : String → String → Bool
is_prefix String.[] s = true
is_prefix (String.◌∷◌ c p) String.[] = false
is_prefix (String.◌∷◌ c p) (String.◌∷◌ d s) = code c == code d && is_prefix p s

-- `strings.Contains(s, p)`.
unfoldable pub contains : String → String → Bool
contains p String.[] = is_empty p
contains p (String.◌∷◌ c s) = is_prefix p (String.◌∷◌ c s) || contains p s

abbrev put_char : Char → List String → List String
put_char c [] = String.◌∷◌ c "" ∷ []
put_char c (w ∷ ws) = String.◌∷◌ c w ∷ ws

abbrev starts_word : String → Bool
starts_word String.[] = false
starts_word (String.◌∷◌ c s) = not (is_space (code c))

-- `strings.Fields`.
unfoldable pub words : String → List String
unfolding is_space
words String.[] = []
words (String.◌∷◌ c s) =
    let rest = words s in
    if is_space (code c)
    then rest
    else if starts_word s
    then put_char c rest
    else String.◌∷◌ c "" ∷ rest

-- The host and the address that the fields of a line have given so far.
abbrev assign : (String × String) → Option (String × String) → String × String
assign found none = found
assign (host, address) (some (key, value)) =
    if is_empty value
    then (host, address)
    else if str_eq key "host"
    then (value, address)
    else if str_eq key "address"
    then (host, value)
    else (host, address)

unfoldable pub pinned_fields : (String × String) → List String → String × String
pinned_fields found [] = found
pinned_fields found (f ∷ fs) = pinned_fields (assign found (cut 61 f)) fs

abbrev occurrences : ℕ → String → ℕ
occurrences n String.[] = 0
occurrences n (String.◌∷◌ c s) =
    let rest = occurrences n s in if code c == n then suc rest else rest

abbrev first_or : String → Option (String × String) → String
first_or s none = s
first_or s (some (a, b)) = a

-- The address without its port.
unfoldable pub address_host : String → String
address_host address =
    first_or (if occurrences 58 address == 1 then first_or address (cut 58 address) else address)
      (split_host_port address)

abbrev complete_pin : String × String → Option (String × String)
unfolding address_host
complete_pin (host, address) =
    if is_empty host || is_empty address then none else some (host, address_host address)

abbrev pin_of : List String → Option (String × String)
unfolding pinned_fields
pin_of (semicolon ∷ tag ∷ a ∷ b ∷ []) =
    if str_eq semicolon ";" && str_eq tag "gru83-pin"
    then complete_pin (pinned_fields ("", "") (a ∷ b ∷ []))
    else none
pin_of fields = none

-- The host and the address that a line of a configuration pins.
unfoldable pub line_pin : String → Option (String × String)
unfolding words pin_of complete_pin
line_pin line = pin_of (words line)

-- `byHost[host] = address`.
abbrev pub assign_pin : String → String → List (String × String) → List (String × String)
assign_pin host address [] = (host, address) ∷ []
assign_pin host address ((h, a) ∷ pins) =
    let rest = assign_pin host address pins in
    if str_eq h host then (h, address) ∷ pins else (h, a) ∷ rest

abbrev pub add_pin : List (String × String) → Option (String × String) → List (String × String)
add_pin pins none = pins
add_pin pins (some (host, address)) = assign_pin host address pins

unfoldable pub add_lines : List (String × String) → List String → List (String × String)
unfolding line_pin
add_lines pins [] = pins
add_lines pins (l ∷ ls) = add_lines (add_pin pins (line_pin l)) ls

-- The loop over the configurations.
unfoldable pub collect_pins : List (String × String) → List String → List (String × String)
unfolding add_lines
collect_pins pins [] = pins
collect_pins pins (text ∷ texts) = collect_pins (add_lines pins (split_lines text)) texts

abbrev insert_text : String → List String → List String
insert_text s [] = s ∷ []
insert_text s (t ∷ ts) =
    let rest = insert_text s ts in if is_lt (compare t s) then t ∷ rest else s ∷ t ∷ ts

-- `sort.Strings`.
abbrev sort_texts : List String → List String
sort_texts [] = []
sort_texts (s ∷ ss) = insert_text s (sort_texts ss)

abbrev host_entry : String × String → String
host_entry (host, address) = address <> " " <> host

-- `hostsContent`, of the texts of all configurations.
unfoldable pub hosts_content : List String → String
unfolding collect_pins
hosts_content texts =
    resolver_marker
    <> "\n"
    <> join "\n" (sort_texts (map host_entry (collect_pins [] texts)))
    <> "\n"

abbrev is_hosts_line : String → Bool
is_hosts_line line = is_prefix "hosts =" (trim_space line)

abbrev set_hosts : String → String → String
set_hosts hosts_path line = if is_hosts_line line then "hosts = " <> hosts_path else line

-- `strings.TrimRight(s, "\n")`.
trim_newlines : String → String
trim_newlines String.[] = String.[]
trim_newlines (String.◌∷◌ c s) =
    let r = trim_newlines s in if is_empty r && code c == 10 then String.[] else String.◌∷◌ c r

abbrev with_hosts_line : String → List String → List String
with_hosts_line hosts_path lines =
    if any is_hosts_line lines
    then map (set_hosts hosts_path) lines
    else lines ++ (("hosts = " <> hosts_path) ∷ [])

abbrev previous : Option String → String
previous none = ""
previous (some s) = s

abbrev or_general : String → String
or_general s = if is_empty s then resolver_marker <> "\n[general]\nresolv = system\n" else s

-- `resolverContent`, after the text that the file had.
unfoldable pub resolver_content : String → Option String → String
unfolding trim_newlines
resolver_content hosts_path old =
    join "\n" (with_hosts_line hosts_path (split_lines (trim_newlines (or_general (previous old)))))
    <> "\n"
