-- ===== src/Discovery/Gathered.antt =====
-- Udper::join gathers the servers that answer on any interface.
use the_multi_room_speaker.Base.{
  ℕ, suc, ◌<◌, ◌≡◌, ◌≢◌, refl, sym, ap, ◌∙◌, subst, true, Option, none, some, List, [], ◌∷◌, length,
  arith, Option-cases, inl, inr,
}
use mathlib.Core.Option.{some-injective}
use the_multi_room_speaker.Base.Int.{pos_part}
use the_multi_room_speaker.Sock.Calls.{Os}
use the_multi_room_speaker.Discovery.{udper, has, Arrival, reply}
use the_multi_room_speaker.Discovery.Found.{IsReply}
use the_multi_room_speaker.Discovery.Life.{Udper, new_udper}
use the_multi_room_speaker.Discovery.Join.{Seeker, interfaces, seekers, join}
use the_multi_room_speaker.Discovery.Joined.{Willing, Hears, AllClear, searches-finds}

-- The Udpers that are made have heard nothing, and there is one for each interface.
seekers_lem :
    (xs : List (List ℕ)) (ps : List Seeker)
    → seekers xs ≡ some ps
    → AllClear ps × (length ps ≡ length xs)
unfolding seekers
seekers_lem [] ps e =
    subst (λ (x : List Seeker). AllClear x × (length x ≡ 0)) (some-injective [] ps e) (tt, refl)
seekers_lem (x ∷ xs) ps e = elim (Option-cases (udper x)) [
  | inl none_named ↦ absurd (some_none (sym (rw (none_named, seekers) refl) ∙ e))
  | inr (named, is_named) ↦ elim (Option-cases (seekers xs)) [
    | inl none_made ↦ absurd (some_none (sym (rw (is_named, none_made, seekers) refl) ∙ e))
    | inr (qs, made) ↦
        let (clear, same) = seekers_lem xs qs made in
        let all : List Seeker = record { net = new_udper; remips = [] } ∷ qs in
        subst (λ (y : List Seeker). AllClear y × (length y ≡ suc (length xs)))
          (some-injective all ps (sym (rw (is_named, made, seekers) refl) ∙ e))
          ((tt, clear), ap suc same)
  ]
]
  where
    some_none : ◌≡◌ {A = Option (List Seeker)} none (some ps) → ⊥
    some_none e = cc

-- With standard input open, so that no new descriptor is 0, where sockets can be made, set to
-- broadcast and bound, and select does not fail, where each entry of an interface can be taken
-- apart, and where all that comes in are answers of servers (of host names and addresses without a
-- colon or a zero, in 127 characters): a server whose answer is waiting at any interface, in any of
-- the 64 rounds of any of the four searches, is among those that join gathers.
pub join-finds :
    (o : Os) (hears : ℕ → ℕ → ℕ → Arrival) (junk : List ℕ) (ifs ipis : List (List ℕ))
    (ps : List Seeker) (k i at : ℕ) (hostname ip : List ℕ)
    → Willing o
    → ((n j : ℕ) → Hears (hears n j))
    → seekers (interfaces ifs) ≡ some ps
    → k < 4
    → i < length (interfaces ifs)
    → at < 64
    → IsReply hostname ip
    → pos_part (hears k i at).signaled ≢ 0
    → (hears k i at).received ≡ some (reply hostname ip)
    → (out : List Udper × List (List ℕ)) × (join o hears junk ifs ipis ≡ some out)
      × (has ip out.1 ≡ true)
unfolding join
join-finds o hears junk ifs ipis ps k i at hostname ip w f made in_tries in_ifs in_rounds r ne e =
    let (clear, same) = seekers_lem (interfaces ifs) ps made in
    rw (made, join)
      (
        _,
        refl,
        searches-finds o w junk hears 4 0 k i at hostname ip ps ipis f clear (omega arith)
            (omega arith) (omega (arith, same)) in_rounds r ne e,
      )
