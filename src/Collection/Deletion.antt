-- ===== src/Collection/Deletion.antt =====
-- MonitoringSampleService.ts: the loop that deletes samples ends, and leaves none behind.
use containerhub.Prelude.{
  ℕ, zero, suc, ◌+◌, ◌<◌, ◌≡◌, ◌∙◌, some, List, [], ◌∷◌, length, is_nil, ◌==◌, Outcome, ok, arith,
}
use containerhub.Collection.Samples.{FieldFilter, Query, delete_each, delete_matching, oldest}

module _ {W S : Type 0} (find : Query → W → Outcome (List S)) (delete : S → W → Outcome W)
    (filters : List FieldFilter) (count : W → ℕ) where
  -- Samples that can be deleted one after another, each of them counted once.
  abbrev pub Deletes : List S → W → Type 0
  Deletes [] w = Unit
  Deletes (s ∷ ss) w = (w' : W) × (delete s w ≡ ok w') × (count w' + 1 ≡ count w) × Deletes ss w'

  -- What is found is empty only if nothing is left, and can be deleted.
  abbrev pub Finds : W → Type 0
  Finds w =
      (ss : List S) × (find (oldest filters) w ≡ ok ss)
      × (is_nil ss ≡ (count w == 0))
      × Deletes ss w

  delete_each-all :
      (ss : List S) (w : W) (n : ℕ)
      → Deletes ss w
      → (w' : W) × (delete_each find delete ss w n ≡ ok (w', n + length ss))
        × (count w' + length ss ≡ count w)
  unfolding delete_each
  delete_each-all [] w n d = (w, ground arith, omega arith)
  delete_each-all (s ∷ ss) w n (w', deleted, one, rest) =
      let (w'', done, sum) = delete_each-all ss w' (n + 1) rest in
      (w'', rw deleted (done ∙ (ground arith)), omega arith)

  abbrev Ends : ℕ → W → ℕ → Type 0
  Ends fuel w n =
      (w' : W) × (delete_matching find delete fuel filters w n ≡ some (ok (w', n + count w)))
      × (count w' ≡ 0)

  -- A round, with what is known of the later ones.
  one_round :
      (fuel : ℕ) (ss : List S) (w : W) (n : ℕ)
      → find (oldest filters) w ≡ ok ss
      → is_nil ss ≡ (count w == 0)
      → Deletes ss w
      → count w < suc fuel
      → ((w' : W) (n' : ℕ) → count w' < fuel → Ends fuel w' n')
      → Ends (suc fuel) w n
  unfolding delete_matching
  one_round fuel [] w n found empty d f later =
      let none_left : count w ≡ 0 = ground (arith, empty) in
      (w, rw (found, delete_matching) (ground (arith, none_left)), none_left)
  one_round fuel (s ∷ ss) w n found empty d f later =
      let (w', done, sum) = delete_each-all (s ∷ ss) w n d in
      let (w'', ended, left) = later w' (n + length (s ∷ ss)) (omega arith) in
      (w'', rw (found, done, delete_matching) (ended ∙ (ground arith)), left)

  delete_matching-all :
      (fuel : ℕ) (w : W) (n : ℕ) → ((w : W) → Finds w) → count w < fuel → Ends fuel w n
  delete_matching-all zero w n h f = absurd (omega arith)
  delete_matching-all (suc fuel) w n h f =
      let (ss, found, empty, d) = h w in
      one_round fuel ss w n found empty d f λ w' n' g. delete_matching-all fuel w' n' h g

-- The deletion of the samples that match a filter ends, in at most one more round than samples match;
-- it reports as many as matched, and none matches then. It is assumed that a search finds nothing only
-- where nothing matches, and that what it finds can be deleted one by one.
pub deletes_all :
    {W S : Type 0} (find : Query → W → Outcome (List S)) (delete : S → W → Outcome W)
    (filters : List FieldFilter) (count : W → ℕ) (fuel : ℕ) (w : W)
    → ((w : W) → Finds find delete filters count w)
    → count w < fuel
    → (w' : W) × (delete_matching find delete fuel filters w 0 ≡ some (ok (w', count w)))
      × (count w' ≡ 0)
deletes_all find delete filters count fuel w h f =
    let (w', done, left) = delete_matching-all find delete filters count fuel w 0 h f in
    (w', done ∙ (ground arith), left)
