-- ===== src/Discovery/Beacon.antt =====
-- srv/udpdisc.cpp, Udper::tmain and Udper::re_interface: the thread in which the server answers speakers.
use the_multi_room_speaker.Base.{ℕ, suc, ◌%◌, List, [], ◌∷◌, ◌++◌, ◌==◌, if◌then◌else◌, u16_mod}
use the_multi_room_speaker.Sock.Calls.{Os}
use the_multi_room_speaker.Discovery.Life.{Udper, new_udper, ready_server, destroy}

-- `udps`, those that were deleted, as they were left, `prev` of re_interface and `hmin`.
pub record Beacon : Type 0 where
  pub udps : List Udper
  pub deleted : List Udper
  pub prev : ℕ
  pub hmin : ℕ

-- `prev` is static, and starts at zero.
abbrev pub starting : Beacon
starting = record { udps = []; deleted = []; prev = 0; hmin = 65535 }

unfoldable pub delete_all : Os → List Udper → List Udper
delete_all o [] = []
delete_all o (u ∷ us) = destroy o u ∷ delete_all o us

unfoldable pub make_all : List (List ℕ) → List Udper
make_all [] = []
make_all (x ∷ ifs) = new_udper ∷ make_all ifs

-- Udper::re_interface: `mtime` is what stat finds, `ifs` what get_local_ifaces finds.
unfoldable pub re_interface : Os → (mtime : ℕ) (ifs : List (List ℕ)) → Beacon → Beacon
unfolding delete_all make_all
re_interface o mtime ifs b =
    if mtime == b.prev
    then b
    else record b { udps = make_all ifs; deleted = delete_all o b.udps ++ b.deleted; prev = mtime }

-- pu->listen_and_respond() for each, as far as it changes the Udper.
unfoldable pub respond_each : Os → List Udper → List Udper
respond_each o [] = []
respond_each o (u ∷ us) = (ready_server o u).1 ∷ respond_each o us

-- A round of `while(__alive)`
unfoldable pub beacon_round : Os → (mtime : ℕ) (ifs : List (List ℕ)) → Beacon → Beacon
unfolding re_interface respond_each
beacon_round o mtime ifs b =
    let b' = if b.hmin % u16_mod == 65535 then re_interface o mtime ifs b else b in
    record b' { udps = respond_each o b'.udps; hmin = suc b'.hmin }

unfoldable pub beacon_rounds : Os → List (ℕ × List (List ℕ)) → Beacon → Beacon
unfolding beacon_round
beacon_rounds o [] b = b
beacon_rounds o ((mtime, ifs) ∷ rounds) b = beacon_rounds o rounds (beacon_round o mtime ifs b)

-- Udper::tmain: the Udpers that were made, as they were left.
unfoldable pub beacon : Os → List (ℕ × List (List ℕ)) → List Udper
unfolding beacon_rounds delete_all
beacon o rounds = let b = beacon_rounds o rounds starting in delete_all o b.udps ++ b.deleted
