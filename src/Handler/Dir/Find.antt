-- ===== src/Handler/Dir/Find.antt =====
-- What a request for a file gives, for every listing of the directory.
use pet_project.Base.{◌≡◌, ◌⊎◌, true, Option, none, some, List, ◌∷◌, ◌++◌, All}
use pet_project.Base.Text.{Text, lit}
use pet_project.Handler.Request.{ReqInfo}
use pet_project.Handler.Dir.{Entry, path_append, Compare, compare_file}
use pet_project.Handler.Dir.Requested.{Requested}

-- A file that the loop passes: one that is not regular, or whose view shows a name that does not match.
abbrev pub IsPassed : (Text → Type 0) → Entry → Type 0
IsPassed Matches e = e.is_regular ≡ true → (n : Text) × (e.shown ≡ some n) × ¬ Matches n

-- Where the loop over `es` ends: at a regular file whose view cannot be read, at one whose view shows a
-- name that matches, or behind the last.
abbrev pub Loop : (Text → Type 0) → (Text → Type 0) → List Entry → Type 0 → Type 0
Loop Matches Found es NotFound =
    ((before : List Entry) × (e : Entry) × (after : List Entry) × (es ≡ before ++ e ∷ after)
      × All (IsPassed Matches) before
      × (e.is_regular ≡ true)
      × (n : Text) × (e.shown ≡ some n)
      × Matches n
      × Found n)
    ⊎ (All (IsPassed Matches) es × NotFound)

abbrev pub Unread : (Text → Type 0) → List Entry → Type 0
Unread Matches es =
    (before : List Entry) × (e : Entry) × (after : List Entry) × (es ≡ before ++ e ∷ after)
    × All (IsPassed Matches) before
    × (e.is_regular ≡ true)
    × (e.shown ≡ none)

-- What a request that is not illegal gives for the listing `es`.
abbrev pub Outcome : Text → List Entry → ReqInfo → Option ReqInfo → Type 0
Outcome path es r none = Unread (Requested r.target) es
Outcome path es r (some r') =
    Loop (Requested r.target) (λ n. r' ≡ record r { target = n; result = path_append path n }) es
      ((r'.result ≡ r.result) × (r'.error ≡ lit "File " ++ (r'.target ++ lit " not found")))

-- The closure accepts, of the names that are shown, those that are asked for, and gives them as target.
abbrev Decides : Compare → Text → Text → Type 0
Decides c target asked =
    (n : Text)
    → ((t : Text) → compare_file c target n ≡ some t → Requested asked n × (t ≡ n))
      × (compare_file c target n ≡ none → ¬ Requested asked n)

module _ (path : Text) (r : ReqInfo) (c : Compare) (target : Text)
    (decides : Decides c target r.target) where
  -- The vector in the loop, from which a final star is gone.
  abbrev started : ReqInfo
  started = record r { target = target }
