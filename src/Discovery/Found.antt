-- ===== src/Discovery/Found.antt =====
-- A server that answers while a speaker searches is found.
use the_multi_room_speaker.Base.{
  ℕ, zero, suc, ◌+◌, ◌<◌, ◌≤◌, ◌≡◌, ◌≢◌, refl, ap₂, sym, subst, Bool, true, false, Option, none,
  some, List, [], ◌∷◌, ◌==◌, if◌then◌else◌, take, length, arith, Bool-cases, inl, inr,
}
use the_multi_room_speaker.Base.Int.{ℤ, pos_part, neg_part}
use native.Mathlib.Decide.{ℕ_discrete}
use the_multi_room_speaker.Discovery.{
  colon, same_string, has, insert, string_of, reply, after_colon, learn, Arrival, heard,
  discover_loop, gather,
}

unfoldable pub contains : ℕ → List ℕ → Bool
contains c [] = false
contains c (x ∷ xs) = if x == c then true else contains c xs

-- An answer as a server of a host with an IPv4 address gives it: no colon in either name, no zero, and
-- no more than 127 characters in all.
pub record IsReply (hostname : List ℕ) (ip : List ℕ) : Type 0 where
  pub host_clear : contains colon hostname ≡ false
  pub ip_clear : contains colon ip ≡ false
  pub no_zero : contains 0 (reply hostname ip) ≡ false
  pub fits : length (reply hostname ip) ≤ 127

pub same_self : (x : List ℕ) → same_string x x ≡ true
unfolding same_string
same_self [] = refl
same_self (x ∷ xs) = ground (arith, same_self xs)

same-contains : (c : ℕ) (x y : List ℕ) → same_string x y ≡ true → contains c x ≡ contains c y
unfolding same_string contains
same-contains c [] [] e = refl
same-contains c [] (y ∷ ys) e = ground arith
same-contains c (x ∷ xs) [] e = ground arith
same-contains c (x ∷ xs) (y ∷ ys) e = ground (arith, same-contains c xs ys)

pub same-eq : (x y : List ℕ) → same_string x y ≡ true → x ≡ y
unfolding same_string
same-eq [] [] e = refl
same-eq [] (y ∷ ys) e = ground arith
same-eq (x ∷ xs) [] e = ground arith
same-eq (x ∷ xs) (y ∷ ys) e =
    let first : x ≡ y = ground arith in
    let others : same_string xs ys ≡ true = ground arith in
    ap₂ (λ (z : ℕ) (zs : List ℕ). z ∷ zs) first (same-eq xs ys others)

-- No string of the set has a colon.
abbrev pub IsClear : List (List ℕ) → Type 0
IsClear [] = Unit {0}
IsClear (x ∷ s) = (contains colon x ≡ false) × IsClear s

clear-has : (x : List ℕ) (s : List (List ℕ)) → contains colon x ≡ true → IsClear s → has x s ≡ false
unfolding has
clear-has x [] c i = refl
clear-has x (y ∷ s) c (n, i) = ground (arith, same-contains colon x y, clear-has x s c i)

has-insert : (x : List ℕ) (s : List (List ℕ)) → has x (insert x s) ≡ true
unfolding has insert
has-insert x s = ground (arith, same_self x)

insert-keeps : (x y : List ℕ) (s : List (List ℕ)) → has x s ≡ true → has x (insert y s) ≡ true
unfolding has insert
insert-keeps x y s h = ground (arith, h)

insert-IsClear :
    (x : List ℕ) (s : List (List ℕ)) → contains colon x ≡ false → IsClear s → IsClear (insert x s)
unfolding insert
insert-IsClear x s c i = elim (Bool-cases (has x s)) [
  | inl e ↦ rw (e, insert) i
  | inr e ↦ rw (e, insert) (c, i)
]

string_of_lem :
    (n : ℕ) (x : List ℕ) → length x ≤ n → contains 0 x ≡ false → string_of (take n x) ≡ x
unfolding string_of contains
string_of_lem zero [] h c = refl
string_of_lem zero (x ∷ xs) h c = absurd (omega arith)
string_of_lem (suc n) [] h c = refl
string_of_lem (suc n) (x ∷ xs) h c = ground (arith, string_of_lem n xs)

after_colon-reply :
    (junk hostname ip : List ℕ)
    → contains colon hostname ≡ false
    → after_colon junk (reply hostname ip) ≡ some ip
unfolding after_colon reply contains
after_colon-reply junk [] ip c = refl
after_colon-reply junk (x ∷ []) ip c = ground arith
after_colon-reply junk (x ∷ y ∷ xs) ip c = ground (arith, after_colon-reply junk (y ∷ xs) ip)

contains-reply : (hostname ip : List ℕ) → contains colon (reply hostname ip) ≡ true
unfolding contains reply
contains-reply [] ip = refl
contains-reply (x ∷ xs) ip = ground (arith, contains-reply xs ip)

learn-reply :
    (junk hostname ip : List ℕ) (s : List (List ℕ))
    → IsReply hostname ip
    → IsClear s
    → learn junk (reply hostname ip) s ≡ insert ip s
unfolding learn
learn-reply junk hostname ip s r i =
    let whole = string_of_lem 127 (reply hostname ip) r.fits r.no_zero in
    rw
      (
        learn,
        whole,
        clear-has (reply hostname ip) s (contains-reply hostname ip) i,
        after_colon-reply junk hostname ip r.host_clear,
      )
      refl

if-IsClear : (s t : List (List ℕ)) (b : Bool) → IsClear s → IsClear t → IsClear (if b then s else t)
if-IsClear s t true i j = i
if-IsClear s t false i j = j

-- What is received, if anything, is a server's answer.
abbrev pub FromServer : Option (List ℕ) → Type 0
FromServer none = Unit {0}
FromServer (some buff) =
    (hostname : List ℕ) × (ip : List ℕ) × IsReply hostname ip × (buff ≡ reply hostname ip)

-- What `learn` does with a server's answer keeps what was found, and finds no name with a colon.
module _ (junk : List ℕ) (s : List (List ℕ)) (clear : IsClear s) where
  learn-IsClear : (buff : List ℕ) → FromServer (some buff) → IsClear (learn junk buff s)
  learn-IsClear buff (hostname, ip, r, e) =
      rw (e, learn-reply junk hostname ip s r clear) (insert-IsClear ip s r.ip_clear clear)

  learn-keeps :
      (x buff : List ℕ) → FromServer (some buff) → has x s ≡ true → has x (learn junk buff s) ≡ true
  learn-keeps x buff (hostname, ip, r, e) h =
      rw (e, learn-reply junk hostname ip s r clear) (insert-keeps x ip s h)

  pub heard-IsClear :
      (signaled : ℤ) (received : Option (List ℕ))
      → FromServer received
      → IsClear (heard (record { signaled = signaled; received = received }) junk s)
  unfolding heard
  heard-IsClear signaled none f = if-IsClear s _ (pos_part signaled == 0) clear clear
  heard-IsClear signaled (some buff) f =
      if-IsClear s _ (pos_part signaled == 0) clear (learn-IsClear buff f)

  heard-keeps :
      (x : List ℕ) (signaled : ℤ) (received : Option (List ℕ))
      → FromServer received
      → has x s ≡ true
      → has x (heard (record { signaled = signaled; received = received }) junk s) ≡ true
  unfolding heard
  heard-keeps x signaled none f h = ground (arith, h)
  heard-keeps x signaled (some buff) f h = ground (arith, learn-keeps x buff f h)

  heard-finds :
      (a : Arrival) (hostname ip : List ℕ)
      → IsReply hostname ip
      → pos_part a.signaled ≢ 0
      → a.received ≡ some (reply hostname ip)
      → has ip (heard a junk s) ≡ true
  unfolding heard
  heard-finds a hostname ip r ne e =
      rw (heard, e) (ground (arith, learn-reply junk hostname ip s r clear, has-insert ip s))

pub gather-keeps :
    (x : List ℕ) (remips cop : List (List ℕ)) → has x cop ≡ true → has x (gather remips cop) ≡ true
unfolding gather
gather-keeps x [] cop h = h
gather-keeps x (a ∷ remips) cop h = gather-keeps x remips (insert a cop) (insert-keeps x a cop h)

same_insert :
    (x y : List ℕ) (s : List (List ℕ)) → same_string x y ≡ true → has x (insert y s) ≡ true
same_insert x y s e =
    subst (λ (z : List ℕ). has z (insert y s) ≡ true) (sym (same-eq x y e)) (has-insert y s)

pub gather-has :
    (x : List ℕ) (remips cop : List (List ℕ))
    → has x remips ≡ true
    → has x (gather remips cop) ≡ true
unfolding gather has
gather-has x [] cop h = ground arith
gather-has x (a ∷ remips) cop h = elim (Bool-cases (same_string x a)) [
  | inl e ↦ gather-keeps x remips (insert a cop) (same_insert x a cop e)
  | inr e ↦ gather-has x remips (insert a cop) (ground (arith, h, e))
]

module _ (arrivals : ℕ → Arrival) (junk : List ℕ)
    (servers : (k : ℕ) → FromServer (arrivals k).received) where
  pub loop-keeps :
      (left k : ℕ) (x : List ℕ) (s : List (List ℕ))
      → IsClear s
      → has x s ≡ true
      → has x (discover_loop left k arrivals junk s).0 ≡ true
  unfolding discover_loop
  loop-keeps zero k x s i h = h
  loop-keeps (suc left) k x s i h =
      let a = arrivals k in
      let clear = heard-IsClear junk s i a.signaled a.received (servers k) in
      let kept = heard-keeps junk s i x a.signaled a.received (servers k) h in
      ground (arith, h, loop-keeps left (k + 1) x (heard a junk s) clear kept)

  pub loop-finds :
      (left k at : ℕ) (hostname ip : List ℕ) (s : List (List ℕ))
      → ((j : ℕ) → neg_part (arrivals j).signaled ≢ 1)
      → k ≤ at
      → at < k + left
      → IsReply hostname ip
      → pos_part (arrivals at).signaled ≢ 0
      → (arrivals at).received ≡ some (reply hostname ip)
      → IsClear s
      → has ip (discover_loop left k arrivals junk s).0 ≡ true
  unfolding discover_loop
  loop-finds zero k at hostname ip s ok h h' r ne e i = absurd (omega arith)
  loop-finds (suc left) k at hostname ip s ok h h' r ne e i =
      let a = arrivals k in
      let clear = heard-IsClear junk s i a.signaled a.received (servers k) in
      elim (ℕ_discrete at k) [
        | yes here ↦
            let found =
              subst (λ (n : ℕ). has ip (heard (arrivals n) junk s) ≡ true) here
                (heard-finds junk s i (arrivals at) hostname ip r ne e) in
            ground (arith, ok k, loop-keeps left (k + 1) ip (heard a junk s) clear found)
        | no further ↦ ground (
          arith,
          ok k,
          loop-finds left (k + 1) at hostname ip (heard a junk s) ok (omega arith) (omega arith) r
              ne e clear,
        )
      ]
