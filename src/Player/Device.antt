-- ===== src/Player/Device.antt =====
-- cli/player.cpp and cli/aop.cpp: what the audio library is given of the frames that are played.
use the_multi_room_speaker.Base.{
  ℕ, ◌+◌, ◌≡◌, refl, sym, ap, ◌∙◌, Bool, true, false, ◌&&◌, Option, none, some, List, [], ◌∷◌, ◌++◌,
  leb, ◌==◌, if◌then◌else◌, length, take, arith, Option-cases, inl, inr, zero, suc, ◌<◌, u64_mod,
}
use mathlib.Core.List.{Sublist, Sublistᴰ}
use native.Mathlib.Nat.{mod-eq_of_lt}
use the_multi_room_speaker.Base.Int.{ℤ, pos, negsuc, pos_part, neg_part, to_size}
use the_multi_room_speaker.Wire.{tcp_snd_len, bits_ao, sample_ao, channels_ao}
use the_multi_room_speaker.Sock.{Kernel}
use the_multi_room_speaker.Circle.Fifo.{Frame}
use the_multi_room_speaker.Client.Kept.{first_sent}
use the_multi_room_speaker.Client.Follows.{AllWhole}
use the_multi_room_speaker.Setup.{AoCls, new_ao}

-- AoCls::play(buff, sz): the bytes that ao_play is given, if a device is open. `none`: it is to read more
-- than the payload.
unfoldable pub ao_play : AoCls → List ℕ → (sz : ℕ) → Option (List ℕ)
ao_play a buff sz = elim a.dev [
  | none ↦ some []
  | some k ↦ if leb sz (length buff) then some (take sz buff) else none
]

-- player::_play(pk)
unfoldable pub play_chunk : AoCls → Frame → Option (List ℕ)
unfolding ao_play
play_chunk a d =
    if pos_part d.0.buf_len + neg_part d.0.buf_len == 0
    then some []
    else ao_play a d.1 (to_size d.0.buf_len)

abbrev pub and_bytes : Option (List ℕ) → Option (List ℕ) → Option (List ℕ)
and_bytes none r = none
and_bytes (some xs) none = none
and_bytes (some xs) (some ys) = some (xs ++ ys)

-- _ao of the constructor of player.
abbrev pub player_ao : (opens : ℕ → Bool) → AoCls
player_ao opens = new_ao opens bits_ao sample_ao channels_ao

-- The frames in turn.
unfoldable pub device : AoCls → List Frame → Option (List ℕ)
unfolding play_chunk
device a [] = some []
device a (d ∷ ds) = and_bytes (play_chunk a d) (device a ds)

unfoldable pub payloads : List Frame → List ℕ
payloads [] = []
payloads (d ∷ ds) = d.1 ++ payloads ds

take-length : (xs : List ℕ) → take (length xs) xs ≡ xs
take-length [] = refl
take-length (x ∷ xs) = ap (λ (ys : List ℕ). x ∷ ys) (take-length xs)

-- A header that announces `n` bytes, and so many.
unfoldable pub is_sound : ℕ → Frame → Bool
is_sound n d = pos_part d.0.buf_len == n && (neg_part d.0.buf_len == 0 && length d.1 == n)

unfoldable pub all_sound : ℕ → List Frame → Bool
unfolding is_sound
all_sound n [] = true
all_sound n (d ∷ ds) = is_sound n d && all_sound n ds

pos_lem : (z : ℤ) (n : ℕ) → pos_part z ≡ n → neg_part z ≡ 0 → z ≡ pos n
pos_lem (pos m) n e f = ap pos e
pos_lem (negsuc m) n e f = absurd (omega (arith, f))

is_sound_lem : (n : ℕ) (d : Frame) → is_sound n d ≡ true → (d.0.buf_len ≡ pos n) × (length d.1 ≡ n)
unfolding is_sound
is_sound_lem n d s =
    let p : pos_part d.0.buf_len ≡ n = ground (arith, s) in
    let q : neg_part d.0.buf_len ≡ 0 = ground (arith, s) in
    (pos_lem d.0.buf_len n p q, ground (arith, s))

-- What the device gets, if there is one.
abbrev pub given : AoCls → List ℕ → List ℕ
given a xs = elim a.dev [ none ↦ [] | some k ↦ xs ]

ao_play_all : (a : AoCls) (xs : List ℕ) → ao_play a xs (length xs) ≡ some (given a xs)
unfolding ao_play
ao_play_all a xs = elim (Option-cases a.dev) [
  | inl e ↦ rw (e, ao_play) refl
  | inr (k, e) ↦ rw (e, ao_play) (ground (arith, take-length xs))
]

play_chunk_sound :
    (a : AoCls) (n : ℕ) (d : Frame)
    → 0 < n
    → n < u64_mod
    → is_sound n d ≡ true
    → play_chunk a d ≡ some (given a d.1)
unfolding play_chunk
play_chunk_sound a n d p h s =
    let (buf, len) = is_sound_lem n d s in
    let size : to_size d.0.buf_len ≡ length d.1 = ap to_size buf ∙ mod-eq_of_lt h ∙ sym len in
    let some_bytes : (pos_part d.0.buf_len + neg_part d.0.buf_len == 0) ≡ false =
      ground (arith, buf, p) in
    rw (some_bytes, play_chunk, size) (ao_play_all a d.1)

given-nil : (a : AoCls) → given a [] ≡ []
given-nil a = elim (Option-cases a.dev) [ inl e ↦ rw e refl | inr (k, e) ↦ rw e refl ]

given-append : (a : AoCls) (xs ys : List ℕ) → given a xs ++ given a ys ≡ given a (xs ++ ys)
given-append a xs ys = elim (Option-cases a.dev) [ inl e ↦ rw e refl | inr (k, e) ↦ rw e refl ]

device_sound :
    (a : AoCls) (n : ℕ) (ds : List Frame)
    → 0 < n
    → n < u64_mod
    → all_sound n ds ≡ true
    → device a ds ≡ some (given a (payloads ds))
unfolding device payloads all_sound
device_sound a n [] p h s = ap some (sym (given-nil a))
device_sound a n (d ∷ ds) p h s =
    let one : is_sound n d ≡ true = ground (arith, s) in
    let more : all_sound n ds ≡ true = ground (arith, s) in
    rw (play_chunk_sound a n d p h one, device, device_sound a n ds p h more)
      (ap some (given-append a d.1 (payloads ds)))

all_sound-Sublistᴰ :
    (n : ℕ) {xs ys : List Frame} → Sublistᴰ xs ys → all_sound n ys ≡ true → all_sound n xs ≡ true
unfolding all_sound
all_sound-Sublistᴰ n Sublistᴰ.slnil s = s
all_sound-Sublistᴰ n (Sublistᴰ.cons l) s = all_sound-Sublistᴰ n l (ground (arith, s))
all_sound-Sublistᴰ n (Sublistᴰ.cons-cons e l) s =
    ground (arith, s, e, all_sound-Sublistᴰ n l (ground (arith, s)))

true_prop : (b : Bool) → IsProp (b ≡ true)
true_prop b = hlevel

all_sound-Sublist :
    (n : ℕ) (xs ys : List Frame) → Sublist xs ys → all_sound n ys ≡ true → all_sound n xs ≡ true
all_sound-Sublist n xs ys l s =
    ∥∥₁_rec (true_prop (all_sound n xs)) (λ (m : Sublistᴰ xs ys). all_sound-Sublistᴰ n m s) l

first_sent_sound :
    (k : ℕ) (fs : List (Kernel × Frame))
    → AllWhole fs
    → all_sound tcp_snd_len (first_sent k fs) ≡ true
unfolding all_sound is_sound
first_sent_sound zero fs a = refl
first_sent_sound (suc k) [] a = refl
first_sent_sound (suc k) ((send, d) ∷ fs) (whole, takes, a) =
    ground (arith, whole.announced, whole.whole, first_sent_sound k fs a)

all_sound-append :
    (n : ℕ) (xs ys : List Frame) → all_sound n (xs ++ ys) ≡ true → all_sound n xs ≡ true
unfolding all_sound
all_sound-append n [] ys s = refl
all_sound-append n (x ∷ xs) ys s = ground (arith, s, all_sound-append n xs ys (ground (arith, s)))

-- What a speaker plays of frames that were sent whole goes to the device as it is.
pub device-plays :
    (a : AoCls) (k : ℕ) (fs : List (Kernel × Frame)) (xs ys : List Frame)
    → AllWhole fs
    → Sublist (xs ++ ys) (first_sent k fs)
    → device a xs ≡ some (given a (payloads xs))
device-plays a k fs xs ys w l = device_sound a tcp_snd_len xs (omega arith) (omega arith) (
    all_sound-append tcp_snd_len xs ys
      (all_sound-Sublist tcp_snd_len (xs ++ ys) (first_sent k fs) l (first_sent_sound k fs w)))
