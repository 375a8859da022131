-- ===== src/DmEngine/Takes.antt =====
-- What a pattern of services/dm_engine.py takes: its first match.
use Prim.Native.Char.{Char}
use text.Mathlib.TextLemmas.{cons-append, nil-append}
use mai_bot_trpg_plugin.Prelude.{ℕ, String, ◌≡◌, Bool, true, false, List, [], ◌∷◌, ◌++◌}
use mai_bot_trpg_plugin.Prelude.Chars.{◌+++◌}
use mai_bot_trpg_plugin.Prelude.Numbers.{AllChars}
use mai_bot_trpg_plugin.DmEngine.Pattern.{
  Pattern, Match, one, many, then_, maybe, group, matches, runs, match_one, match_next, add_before,
  add_group, add_char, empty_groups,
}

-- The list of matches begins with this one.
abbrev pub BeginsWith : Match → List Match → Type 0
BeginsWith m ms = (rest : List Match) × (ms ≡ m ∷ rest)

abbrev pub Takes : Pattern → String → Match → Type 0
Takes r s m = BeginsWith m (matches r s)

pub then_-Takes :
    (a b : Pattern) (s u v t t' : String) (gs hs : List String)
    → Takes a s (u, gs, t)
    → Takes b t (v, hs, t')
    → Takes (then_ a b) s (u +++ v, gs ++ hs, t')
unfolding matches match_next
then_-Takes a b s u v t t' gs hs (ms, e) (ns, f) =
    (add_before u gs ns ++ match_next (matches b) ms, rw (e, f))

pub group-Takes :
    (a : Pattern) (s u t : String) (gs : List String)
    → Takes a s (u, gs, t)
    → Takes (group a) s (u, u ∷ gs, t)
unfolding matches
group-Takes a s u t gs (ms, e) = (add_group ms, rw e)

pub maybe-Takes :
    (n : ℕ) (a : Pattern) (s : String) (m : Match) → Takes a s m → Takes (maybe n a) s m
unfolding matches
maybe-Takes n a s m (ms, e) = (ms ++ ("", empty_groups n, s) ∷ [], rw e)

pub one-Takes :
    (p : Char → Bool) (c : Char) (s : String)
    → p c ≡ true
    → Takes (one p) (String.◌∷◌ c s) (String.◌∷◌ c "", [], s)
unfolding matches match_one
one-Takes p c s h = ([], rw h)

-- A run of characters of a kind, up to one of another kind.
pub many-Takes :
    (p : Char → Bool) (d : String) (c : Char) (s : String)
    → AllChars (λ x. p x ≡ true) d
    → p c ≡ false
    → Takes (many p) (d +++ String.◌∷◌ c s) (d, [], String.◌∷◌ c s)
unfolding matches runs
many-Takes p String.[] c s h k = ([], rw (nil-append (String.◌∷◌ c s), k))
many-Takes p (String.◌∷◌ x d) c s h k =
    let (ms, e) = many-Takes p d c s h.1 k in
    (
      add_char x ms ++ ("", [], String.◌∷◌ x (d +++ String.◌∷◌ c s)) ∷ [],
      rw (cons-append x d (String.◌∷◌ c s), h.0, e),
    )
