-- ===== src/Command/Laws.antt =====
-- What `parse_prefixed_command` reads.
use Prim.Native.String
use mathlib.Core.Option
use text.Mathlib.TextLemmas.{cons-ne-nil, append-nil}
use matrix_bridge_discord.Prelude.{
  ◌≡◌, ◌≢◌, refl, ap, ◌∙◌, subst, inl, inr, false, List, [], ◌∷◌, String, Option, none, some,
  is_some, Bool-cases, All,
}
use matrix_bridge_discord.Text.{
  is_empty, trim, trim_start, trim_end, strip_prefix, starts_with, join, NoSpace, IsWord,
  is_whitespace,
}
use matrix_bridge_discord.Text.Laws.{
  strip_prefix-trim_end, strip_prefix-append, split_whitespace-IsWord, split_whitespace-join,
  trim_start-join, trim_end-join, trim_start-space, join-ne-nil,
}
use matrix_bridge_discord.Command.{ParsedCommand, of_words, of_remainder, parse_prefixed_command}

is_some-map {ℓ κ} :
    {A : Type ℓ} {B : Type κ} (f : A → B) (o : Option A) → is_some (Option.map f o) ≡ is_some o
is_some-map f none = refl
is_some-map f (some a) = refl

-- A prefix without white space is recognised exactly when the message starts with it behind
-- leading white space, which is the test `is_command` of both command handlers.
pub is_some-parse_prefixed_command :
    (prefix message : String)
    → NoSpace prefix
    → is_some (parse_prefixed_command prefix message) ≡ starts_with (trim_start message) prefix
unfolding parse_prefixed_command starts_with trim
is_some-parse_prefixed_command prefix message h =
    is_some-map _ (strip_prefix prefix (trim message))
    ∙ ap is_some (strip_prefix-trim_end prefix (trim_start message) h)
    ∙ is_some-map trim_end (strip_prefix prefix (trim_start message))

help-IsWord : IsWord "help"
unfolding is_whitespace
help-IsWord = ((refl, (refl, (refl, (refl, tt)))), cons-ne-nil _ _)

of_words-IsWord :
    (ws : List String)
    → All IsWord ws
    → IsWord (of_words ws).command × All IsWord (of_words ws).args
of_words-IsWord [] h = (help-IsWord, tt)
of_words-IsWord (w ∷ ws) (h, hs) = (h, hs)

of_remainder-IsWord :
    (remainder : String)
    → IsWord (of_remainder remainder).command × All IsWord (of_remainder remainder).args
of_remainder-IsWord remainder = elim (Bool-cases (is_empty remainder)) [
  | inl e ↦ rw e (help-IsWord, tt)
  | inr e ↦ rw e (of_words-IsWord _ (split_whitespace-IsWord remainder))
]

-- Whatever the message, the command and each argument are words: not empty, no white space.
pub parse_prefixed_command-IsWord :
    (prefix message : String) (parsed : ParsedCommand)
    → parse_prefixed_command prefix message ≡ some parsed
    → IsWord parsed.command × All IsWord parsed.args
unfolding parse_prefixed_command
parse_prefixed_command-IsWord prefix message parsed e =
    let (rest, _, same) = (Option.map-eq-some_iff _ _).0 e in
    rw (← same) (of_remainder-IsWord (trim rest))

pub is_empty_of_ne-nil : (s : String) → s ≢ String.[] → is_empty s ≡ false
is_empty_of_ne-nil String.[] h = absurd (h refl)
is_empty_of_ne-nil (String.◌∷◌ c s) h = refl

trim-space-join :
    (w : String) (ws : List String)
    → IsWord w
    → All IsWord ws
    → trim (String.◌++◌ " " (join (w ∷ ws) " ")) ≡ join (w ∷ ws) " "
unfolding trim
trim-space-join w ws h hs = rw (trim_start-space, trim_start-join w ws h) (trim_end-join w ws h hs)

of_remainder-join :
    (w : String) (ws : List String)
    → IsWord w
    → All IsWord ws
    → of_remainder (join (w ∷ ws) " ") ≡ record { command = w; args = ws }
of_remainder-join w ws h hs =
    rw (is_empty_of_ne-nil _ (join-ne-nil w ws h), split_whitespace-join (w ∷ ws) (h, hs))

pub trim-join :
    (w : String) (ws : List String)
    → IsWord w
    → All IsWord ws
    → trim (join (w ∷ ws) " ") ≡ join (w ∷ ws) " "
unfolding trim
trim-join w ws h hs = rw (trim_start-join w ws h) (trim_end-join w ws h hs)

strip_prefix-join :
    (prefix w : String) (ws : List String)
    → strip_prefix prefix (join (prefix ∷ w ∷ ws) " ") ≡ some (String.◌++◌ " " (join (w ∷ ws) " "))
unfolding join
strip_prefix-join prefix w ws = strip_prefix-append prefix _

-- A command written with single spaces is read back, its arguments in order.
pub parse_prefixed_command-join :
    (prefix command : String) (args : List String)
    → IsWord prefix
    → IsWord command
    → All IsWord args
    → parse_prefixed_command prefix (join (prefix ∷ command ∷ args) " ")
      ≡ some (record { command = command; args = args })
unfolding parse_prefixed_command
parse_prefixed_command-join prefix command args hp hc ha = rw (
  trim-join prefix (command ∷ args) hp (hc, ha),
  strip_prefix-join prefix command args,
  trim-space-join command args hc ha,
  of_remainder-join command args hc ha,
)

strip_prefix_self : (prefix : String) → strip_prefix prefix prefix ≡ some ""
strip_prefix_self prefix =
    subst (λ t. strip_prefix prefix t ≡ some "") (append-nil prefix) (strip_prefix-append prefix "")

trim-nil : trim "" ≡ ""
unfolding trim trim_start trim_end
trim-nil = refl

trim_of_word : (w : String) → IsWord w → trim w ≡ w
unfolding trim join
trim_of_word w h = trim-join w [] h tt

-- The prefix alone asks for help.
pub parse_prefixed_command_alone :
    (prefix : String)
    → IsWord prefix
    → parse_prefixed_command prefix prefix ≡ some (record { command = "help"; args = [] })
unfolding parse_prefixed_command
parse_prefixed_command_alone prefix h =
    rw (trim_of_word prefix h, strip_prefix_self prefix, trim-nil)
