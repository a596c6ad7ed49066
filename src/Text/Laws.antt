-- ===== src/Text/Laws.antt =====
-- Laws of trimming, prefixes and words.
use Prim.Native.String.{[], ◌∷◌, ◌++◌}
use mathlib.Core.Option
use text.Mathlib.TextLemmas.{nil-append, cons-append, append-nil, append_assoc, cons-ne-nil}
use matrix_bridge_discord.Prelude.{
  ◌≡◌, ◌≢◌, refl, ap, ◌∙◌, subst, inl, inr, true, false, ◌&&◌, some, String, List, Char, arith,
  if◌then◌else◌, Bool-cases, All,
}
use matrix_bridge_discord.Text.Trim.{
  char_eq, char_eq-eq, is_whitespace, is_empty, trim_start, trim_end, strip_prefix, NoSpace, IsWord,
}
use matrix_bridge_discord.Text.Words.{push, words_from, split_whitespace, join}

pub char_eq_refl : (c : Char) → char_eq c c ≡ true
char_eq_refl c = ground arith

-- Trimming the end does not reach into a prefix without white space.
pub strip_prefix-trim_end :
    (p s : String)
    → NoSpace p
    → strip_prefix p (trim_end s) ≡ Option.map trim_end (strip_prefix p s)
unfolding strip_prefix trim_end
strip_prefix-trim_end [] s h = refl
strip_prefix-trim_end (c ∷ p) [] h = refl
strip_prefix-trim_end (c ∷ p) (d ∷ s) (hc, hp) = elim (Bool-cases (char_eq c d)) [
  | inl e ↦ rw (← char_eq-eq c d e, hc, char_eq_refl c) (strip_prefix-trim_end p s hp)
  | inr e ↦ elim (Bool-cases (is_whitespace d && is_empty (trim_end s))) [
    | inl dropped ↦ rw (dropped, e)
    | inr kept ↦ rw (kept, e)
  ]
]

pub strip_prefix-append : (p s : String) → strip_prefix p (p ++ s) ≡ some s
unfolding strip_prefix
strip_prefix-append [] s = rw nil-append
strip_prefix-append (c ∷ p) s = rw cons-append (rw char_eq_refl (strip_prefix-append p s))

pub strip_prefix-eq-some : (p s : String) {r : String} → strip_prefix p s ≡ some r → s ≡ p ++ r
unfolding strip_prefix
strip_prefix-eq-some [] s h = rw nil-append (ground arith)
strip_prefix-eq-some (c ∷ p) [] h = cc
strip_prefix-eq-some (c ∷ p) (d ∷ s) {r} h = elim (Bool-cases (char_eq c d)) [
  | inl e ↦ rw (
    cons-append,
    char_eq-eq c d e,
    ← strip_prefix-eq-some p s {r = r} (rw (e, strip_prefix) at h),
  )
  | inr e ↦ cc (rw (e, strip_prefix) at h)
]

pub trim_start_of_word : (w s : String) → IsWord w → trim_start (w ++ s) ≡ w ++ s
unfolding trim_start
trim_start_of_word [] s (_, ne) = absurd (ne refl)
trim_start_of_word (c ∷ w) s ((hc, _), _) = rw cons-append (rw hc)

pub trim_end_of_NoSpace : (w : String) → NoSpace w → trim_end w ≡ w
unfolding trim_end
trim_end_of_NoSpace [] _ = refl
trim_end_of_NoSpace (c ∷ w) (hc, hw) = rw (hc, trim_end_of_NoSpace w hw)

is_empty-append : (s w : String) → w ≢ [] → is_empty (s ++ w) ≡ false
is_empty-append [] [] h = absurd (h refl)
is_empty-append [] (c ∷ w) h = rw nil-append
is_empty-append (c ∷ s) w h = rw cons-append

-- A text that ends in no white space is kept, whatever stands before it.
pub trim_end-append : (s t : String) → t ≢ [] → trim_end t ≡ t → trim_end (s ++ t) ≡ s ++ t
unfolding trim_end
trim_end-append [] t h e = rw nil-append e
trim_end-append (c ∷ s) t h e =
    rw (cons-append, trim_end-append s t h e) (ground (arith, is_empty-append s t h))

words_from-append :
    (cur w s : String) → NoSpace w → words_from cur (w ++ s) ≡ words_from (cur ++ w) s
unfolding words_from
words_from-append cur [] s _ = rw (nil-append, append-nil)
words_from-append cur (c ∷ w) s (hc, hw) =
    rw cons-append
      (rw (hc, words_from-append (push cur c) w s hw, append_assoc, cons-append, nil-append))

NoSpace-push : (s : String) (c : Char) → NoSpace s → is_whitespace c ≡ false → NoSpace (push s c)
NoSpace-push [] c _ h = rw nil-append (h, tt)
NoSpace-push (d ∷ s) c (hd, hs) h = rw cons-append (hd, NoSpace-push s c hs h)

words_from-IsWord_end :
    (cur s : String)
    → NoSpace cur
    → All IsWord (words_from "" s)
    → All IsWord (if is_empty cur then words_from "" s else List.◌∷◌ cur (words_from "" s))
words_from-IsWord_end [] s h later = later
words_from-IsWord_end (c ∷ cur) s h later = ((h, cons-ne-nil c cur), later)

words_from-IsWord : (cur s : String) → NoSpace cur → All IsWord (words_from cur s)
unfolding words_from
words_from-IsWord [] [] h = tt
words_from-IsWord (c ∷ cur) [] h = ((h, cons-ne-nil c cur), tt)
words_from-IsWord cur (d ∷ s) h = elim (Bool-cases (is_whitespace d)) [
  | inl e ↦ rw e (words_from-IsWord_end cur s h (words_from-IsWord "" s tt))
  | inr e ↦ rw e (words_from-IsWord (push cur d) s (NoSpace-push cur d h e))
]

-- `split_whitespace` yields words.
pub split_whitespace-IsWord : (s : String) → All IsWord (split_whitespace s)
unfolding split_whitespace
split_whitespace-IsWord s = words_from-IsWord "" s tt

words_from_end : (w : String) → w ≢ [] → words_from w [] ≡ List.◌∷◌ w List.[]
unfolding words_from
words_from_end [] h = absurd (h refl)
words_from_end (c ∷ w) h = refl

words_from_space : (w s : String) → w ≢ [] → words_from w (" " ++ s) ≡ List.◌∷◌ w (words_from "" s)
unfolding words_from is_whitespace
words_from_space [] s h = absurd (h refl)
words_from_space (c ∷ w) s h = rw cons-append (rw nil-append)

words_from_word : (w s : String) → NoSpace w → words_from "" (w ++ s) ≡ words_from w s
words_from_word w s h = rw (words_from-append "" w s h, nil-append)

-- Words joined by spaces are split into themselves.
pub split_whitespace-join : (ws : List String) → All IsWord ws → split_whitespace (join ws " ") ≡ ws
unfolding split_whitespace join
split_whitespace-join List.[] _ = refl
split_whitespace-join (List.◌∷◌ w List.[]) ((hw, ne), _) =
    subst (λ t. words_from "" t ≡ List.◌∷◌ w List.[]) (append-nil w)
      (words_from_word w [] hw ∙ words_from_end w ne)
split_whitespace-join (List.◌∷◌ w (List.◌∷◌ v ws)) ((hw, ne), h) =
    words_from_word w _ hw
    ∙ words_from_space w _ ne
    ∙ ap (List.◌∷◌ w) (unfold split_whitespace in split_whitespace-join (List.◌∷◌ v ws) h)

append-ne-nil : (s t : String) → s ≢ [] → s ++ t ≢ []
append-ne-nil [] t h = absurd (h refl)
append-ne-nil (c ∷ s) t h = rw cons-append (cons-ne-nil c (s ++ t))

-- Words joined by spaces have no white space at either end.
pub join-ne-nil : (w : String) (ws : List String) → IsWord w → join (List.◌∷◌ w ws) " " ≢ []
unfolding join
join-ne-nil w List.[] h = h.1
join-ne-nil w (List.◌∷◌ v ws) h = append-ne-nil w _ h.1

pub trim_start-join :
    (w : String) (ws : List String)
    → IsWord w
    → trim_start (join (List.◌∷◌ w ws) " ") ≡ join (List.◌∷◌ w ws) " "
unfolding join
trim_start-join w List.[] h =
    subst (λ t. trim_start t ≡ t) (append-nil w) (trim_start_of_word w [] h)
trim_start-join w (List.◌∷◌ v ws) h = trim_start_of_word w _ h

pub trim_end-join :
    (w : String) (ws : List String)
    → IsWord w
    → All IsWord ws
    → trim_end (join (List.◌∷◌ w ws) " ") ≡ join (List.◌∷◌ w ws) " "
unfolding join
trim_end-join w List.[] h _ = trim_end_of_NoSpace w h.0
trim_end-join w (List.◌∷◌ v ws) h (hv, hs) =
    let tail = join (List.◌∷◌ v ws) " " in
    trim_end-append w (" " ++ tail) (append-ne-nil " " tail (cons-ne-nil _ _))
      (trim_end-append " " tail (join-ne-nil v ws hv) (trim_end-join v ws hv hs))

-- A space before the text is trimmed away.
pub trim_start-space : (s : String) → trim_start (" " ++ s) ≡ trim_start s
unfolding trim_start is_whitespace
trim_start-space s = rw cons-append (rw nil-append)
