-- ===== src/Users/Tests.antt =====
-- A cache manager in memory, and the witnesses of the theorems on profiles.
use project_saas_backend.Common.{
  Text, codes, text_eq, Option, none, some, List, [], ◌∷◌, Bool, true, false, ◌≡◌, refl, arith,
  if◌then◌else◌,
}
use project_saas_backend.Common.Result.{ok, err}
use project_saas_backend.Errors
use project_saas_backend.Errors.{Thrown, thrown_api}
use project_saas_backend.Accounts.{User, default_row}
use project_saas_backend.Accounts.Memory.{memory_table, find_unique}
use project_saas_backend.Users.{
  PublicUserProfile, Attempt, done, failed, CacheManager, UpdateUserDto, set_profile,
  to_public_profile, user_key, State, find_profile, update, remove,
}
use project_saas_backend.Users.Coherence.{Coherent, Reads, find_profile-Reads}
use project_saas_backend.Users.Writes.{update-find_profile, remove-find_profile}

-- A log of writes, the newest first; a store that is read-only refuses every write.
record Memory : Type 0 where
  read_only : Bool
  log : List (Text × Option PublicUserProfile)

lookup : List (Text × Option PublicUserProfile) → Text → Option PublicUserProfile
lookup [] k = none
lookup ((j, o) ∷ l) k = if text_eq j k then o else lookup l k

peek : Memory → Text → Option PublicUserProfile
unfolding lookup
peek s k = lookup s.log k

write : Memory → Text → Option PublicUserProfile → Attempt Memory
write s k o = if s.read_only then failed else done (record s { log = (k, o) ∷ s.log })

get-peek :
    (s : Memory) (k : Text) (o : Option PublicUserProfile) → done (peek s k) ≡ done o → o ≡ peek s k
get-peek s k o h = cc

peek-write :
    (s s' : Memory) (k j : Text) (o : Option PublicUserProfile)
    → write s k o ≡ done s'
    → peek s' j ≡ (if text_eq k j then o else peek s j)
unfolding write peek
peek-write s s' k j o h = ground arith

abbrev memory_cache : CacheManager
memory_cache = record {
  Store = Memory;
  peek = peek;
  get = λ s k. done (peek s k);
  set = λ s k p ttl. write s k (some p);
  del = λ s k. write s k none;
  get-peek = get-peek;
  peek-set = λ s s' k j p ttl. peek-write s s' k j (some p);
  peek-del = λ s s' k j. peek-write s s' k j none;
}

abbrev bob : User
bob = default_row (codes "u-2") 1 (record {
  email = codes "bob@example.com";
  password = [];
  first_name = codes "Bob";
  last_name = codes "Ray";
  phone = none;
})

abbrev cold : State memory_table memory_cache
cold = record { db = bob ∷ []; cache = record { read_only = false; log = [] } }

cold-Coherent : Coherent memory_table memory_cache cold
unfolding peek
cold-Coherent = record { agrees = λ i p h. absurd (cc (h)) }

find_profile-Reads_example : Reads memory_table memory_cache cold (codes "u-2")
find_profile-Reads_example =
    find_profile-Reads memory_table memory_cache cold (codes "u-2") cold-Coherent

abbrev rename : UpdateUserDto
rename = record {
  first_name = some (some (codes "Robert"));
  last_name = none;
  phone = some none;
  avatar = none;
}

abbrev emptied : Memory
emptied = record { read_only = false; log = (user_key (codes "u-2"), none) ∷ [] }

update-find_profile_example :
    let p = to_public_profile (set_profile 9 rename bob) in
    let s' = (update memory_table memory_cache Thrown.other 9 (codes "u-2") rename cold).1 in
    ((update memory_table memory_cache Thrown.other 9 (codes "u-2") rename cold).0 ≡ ok p)
    × Coherent memory_table memory_cache s'
    × ((find_profile memory_table memory_cache (codes "u-2") s').0 ≡ ok p)
unfolding find_unique text_eq codes write
update-find_profile_example =
    update-find_profile memory_table memory_cache cold (codes "u-2") bob emptied refl refl refl
      cold-Coherent Thrown.other 9 rename refl

remove-find_profile_example :
    let s' = (remove memory_table memory_cache 9 (codes "u-2") cold).1 in
    ((remove memory_table memory_cache 9 (codes "u-2") cold).0 ≡ ok tt)
    × Coherent memory_table memory_cache s'
    × ((find_profile memory_table memory_cache (codes "u-2") s').0
        ≡ err (thrown_api Errors.user_not_found))
unfolding find_unique text_eq codes write
remove-find_profile_example =
    remove-find_profile memory_table memory_cache cold (codes "u-2") bob emptied refl refl refl
      cold-Coherent 9

abbrev stuck : State memory_table memory_cache
stuck = record {
  db = bob ∷ [];
  cache = record {
    read_only = true;
    log = (user_key (codes "u-2"), some (to_public_profile bob)) ∷ [];
  };
}
