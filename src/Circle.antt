-- ===== src/Circle.antt =====
-- common/srvq.h, class Circle: the play queue between the receiving and the playing thread. Every
-- method holds the mutex, so a method is one atomic step on the state. A `Chunk*` is a `Ref`.
-- `none` as the outer result is an access outside `_queue` or an assertion that fails.
pub mod Window
pub mod Fifo
pub mod Invariant
pub mod Optim
pub mod Display
pub mod Shown
pub mod Threads
use the_multi_room_speaker.Base.{
  ℕ, zero, suc, ◌+◌, ◌-◌, ◌*◌, ◌/◌, ◌%◌, Bool, true, false, Option, none, some, List, [], ◌∷◌, ◌++◌,
  ltb, leb, ◌==◌, if◌then◌else◌, length, get_elem?, set, replicate, add_size, u64_mod,
}
use the_multi_room_speaker.Base.Int.{ℤ, pos, ◌-ℤ◌, to_size, pos_part, neg_part}
use the_multi_room_speaker.Wire.{BufHdr, zero_hdr, hdr_size}

-- `_playbuff` is `_hdr` followed by `payload`; `_sz` counts both.
pub record Chunk : Type 0 where
  pub sz : ℕ
  pub hdr : BufHdr
  pub payload : List ℕ
  pub idx : ℕ
  pub locked : Bool

-- Chunk(int sz): `memset` zeroes the first `sz` of the `sz + sizeof(BufHdr)` bytes, which covers the
-- header for `sz` of at least its size; `junk` is what the last bytes hold.
unfoldable pub new_chunk : ℕ → List ℕ → ℕ → Chunk
new_chunk sz junk i = record {
  sz = sz + hdr_size;
  hdr = zero_hdr;
  payload = replicate (sz - hdr_size) 0 ++ junk;
  idx = i;
  locked = false;
}

pub record Circle : Type 0 where
  pub scrap_chunk : Option Chunk
  pub queue : List Chunk
  pub chunksz : ℕ
  pub maxqsz : ℕ
  pub optim : ℕ
  pub puti : ℕ
  pub geti : ℕ
  pub elems : ℕ
  pub block_get : Bool

-- A pointer to a chunk of `_queue`, or to `_scrap`.
pub data Ref : Type 0 where
  slot : ℕ → Ref
  scrap : Ref

-- `++e %= _maxqsz`
unfoldable pub inc : ℕ → ℕ → ℕ
inc m e = add_size e 1 % m

unfoldable pub init : Circle
init = record {
  scrap_chunk = none;
  queue = [];
  chunksz = 0;
  maxqsz = 0;
  optim = 0;
  puti = 0;
  geti = 0;
  elems = 0;
  block_get = false;
}

unfoldable pub new_chunks : ℕ → List ℕ → ℕ → ℕ → List Chunk
new_chunks chunk junk i zero = []
new_chunks chunk junk i (suc n) = new_chunk chunk junk i ∷ new_chunks chunk junk (i + 1) n

-- reserve(chunks, chunk), for arguments that are not negative.
unfoldable pub reserve : ℕ → ℕ → List ℕ → Circle → Option Circle
unfolding new_chunks
reserve chunks chunk junk q =
    if length q.queue == 0
    then some (record q {
      maxqsz = chunks;
      chunksz = chunk;
      queue = new_chunks chunk junk 0 chunks;
      scrap_chunk = some (new_chunk chunk junk 0);
    })
    else none

-- (optim * _maxqsz) / 100 in `size_t`
unfoldable pub optim_of : ℤ → ℕ → ℕ
optim_of optim m = (to_size optim * m) % u64_mod / 100

unfoldable pub set_optim_perc : ℤ → Circle → Bool × Circle
unfolding optim_of
set_optim_perc optim q =
    let newoptim = optim_of optim q.maxqsz in
    if newoptim == q.optim then (false, q) else (true, record q { optim = newoptim })

unfoldable pub percent : Circle → ℕ
percent q = (q.elems * 100) % u64_mod / add_size q.maxqsz 1

-- while(els && _elems), on `_elems`: what is left of it, and `_geti`.
remove_loop : ℕ → ℕ → ℤ → ℕ → ℕ × ℕ
remove_loop m zero els geti = (0, geti)
remove_loop m (suc e) els geti =
    let rest = remove_loop m e (els -ℤ pos 1) (inc m geti) in
    if pos_part els + neg_part els == 0 then (suc e, geti) else rest

unfoldable pub remove_back : ℤ → Circle → Circle
unfolding remove_loop
remove_back els q =
    let (left, at) = remove_loop q.maxqsz q.elems els q.geti in record q { elems = left; geti = at }

unfoldable pub reset : Circle → Circle
reset q = record q { geti = 0; puti = 0; elems = 0 }

-- Writes through a pointer. A slot that is not there is no pointer the class hands out.
unfoldable pub modify : Ref → (Chunk → Chunk) → Circle → Circle
modify (slot i) f q = elim (get_elem? q.queue i) [
  | none ↦ q
  | some k ↦ record q { queue = set q.queue i (f k) }
]
modify scrap f q = elim q.scrap_chunk [ none ↦ q | some k ↦ record q { scrap_chunk = some (f k) } ]

abbrev pub lock : Chunk → Chunk
lock k = record k { locked = true }

abbrev pub unlock : Chunk → Chunk
unlock k = record k { locked = false }

-- release(pk): a null pointer does nothing; the caller's pointer becomes null.
unfoldable pub release : Option Ref → Circle → Option Ref × Circle
unfolding modify
release none q = (none, q)
release (some r) q = (none, modify r unlock q)

-- if(_block_get) _block_get = (_elems < _optim);
unfoldable pub reblock : Circle → Circle
reblock q = record q { block_get = if q.block_get then ltb q.elems q.optim else q.block_get }

-- `_scrap` as a pointer, null before `reserve`.
abbrev pub scrap_ref : Circle → Option Ref
scrap_ref q = elim q.scrap_chunk [ none ↦ none | some k ↦ some scrap ]

unfoldable pub q_feedup : Bool → Circle → Option (Option Ref × Circle)
unfolding inc reblock
q_feedup scrap_too q =
    if leb q.elems q.maxqsz
    then elim (get_elem? q.queue q.puti) [
      | none ↦ none
      | some k ↦
          if k.locked
          then some (otherwise, q)
          else some (
            some (slot q.puti),
            reblock (record q {
              puti = inc q.maxqsz q.puti;
              elems = add_size q.elems 1;
              queue = set q.queue q.puti (lock k);
            }),
          )
    ]
    else some (otherwise, q)
  where
    otherwise : Option Ref
    otherwise = if scrap_too then scrap_ref q else none

unfoldable pub get_off_put : ℤ → Circle → Option (Option Ref × Circle)
get_off_put index q =
    let mindex = add_size q.puti (to_size index) % q.maxqsz in
    elim (get_elem? q.queue mindex) [
      | none ↦ none
      | some k ↦
          if k.locked
          then some (none, q)
          else some (some (slot mindex), record q { queue = set q.queue mindex (lock k) })
    ]

unfoldable pub q_consume : Circle → Option (Option Ref × Circle)
unfolding inc reblock
q_consume q =
    if q.elems == 0
    then some (none, reblock q)
    else if q.block_get
    then some (none, reblock q)
    else elim (get_elem? q.queue q.geti) [
      | none ↦ none
      | some k ↦
          if k.locked
          then some (none, reblock q)
          else some (
            some (slot q.geti),
            record q {
              geti = inc q.maxqsz q.geti;
              elems = q.elems - 1;
              queue = set q.queue q.geti (lock k);
            },
          )
    ]

-- dummy(), which writes through `_scrap`.
unfoldable pub dummy : Circle → Option Ref × Circle
unfolding modify
dummy q = (scrap_ref q, modify scrap lock q)

-- The chunk is not locked.
unfoldable pub pick_get : Circle → Option (Option Ref × Circle)
unfolding dummy
pick_get q =
    if q.elems == 0
    then some (dummy q)
    else elim (get_elem? q.queue q.geti) [ none ↦ none | some k ↦ some (some (slot q.geti), q) ]

-- while(_elems > _optim): what is left of `_elems`, and `_geti`.
unfoldable pub shrink_loop : ℕ → ℕ → ℕ → ℕ → ℕ × ℕ
unfolding inc
shrink_loop m optim zero geti = (0, geti)
shrink_loop m optim (suc e) geti =
    let rest = shrink_loop m optim e (inc m geti) in
    if ltb optim (suc e) then rest else (suc e, geti)

-- The optimum that force_optim(optlen) settles on.
unfoldable pub forced_optim : ℤ → ℕ → ℕ
forced_optim optlen m = if leb m (to_size optlen) then m - m / 20 else to_size optlen

unfoldable pub force_optim : ℤ → Circle → Circle
unfolding forced_optim
force_optim optlen q =
    let newoptim = forced_optim optlen q.maxqsz in
    let (left, at) = shrink_loop q.maxqsz newoptim q.elems q.geti in
    if newoptim == q.optim
    then q
    else if ltb newoptim q.elems
    then record q { optim = newoptim; elems = left; geti = at }
    else record q { optim = newoptim; block_get = true }

-- The methods that the two threads call, as the events of a history. `write` is a write to a chunk
-- through a pointer that a method returned.
pub data Call : Type 0 where
  feeds : Bool → Call
  consumes : Call
  puts_ahead : ℤ → Call
  releases : Option Ref → Call
  writes : Ref → (Chunk → Chunk) → Call
  drops : ℤ → Call
  resets dummies picks : Call
  forces sets_percent : ℤ → Call

abbrev pub after : Option (Option Ref × Circle) → Option Circle
after none = none
after (some (r, q)) = some q

unfoldable pub step : Call → Circle → Option Circle
unfolding q_feedup q_consume get_off_put release modify remove_back reset dummy pick_get force_optim
    set_optim_perc
step (feeds b) q = after (q_feedup b q)
step consumes q = after (q_consume q)
step (puts_ahead i) q = after (get_off_put i q)
step (releases r) q = some (release r q).1
step (writes r f) q = some (modify r f q)
step (drops els) q = some (remove_back els q)
step resets q = some (reset q)
step dummies q = some (dummy q).1
step picks q = after (pick_get q)
step (forces n) q = some (force_optim n q)
step (sets_percent n) q = some (set_optim_perc n q).1

unfoldable pub run : List Call → Circle → Option Circle
run [] q = some q
run (c ∷ cs) q = elim (step c q) [ none ↦ none | some q' ↦ run cs q' ]
