-- ===== src/Core/Learn.antt =====
-- crates/clave-core/src/learn.rs: work roots and a launch profile from what an app was seen to do.
use clave.Prelude.{
  ℕ, ◌==◌, nat_eq, Bool, true, false, ◌||◌, ◌&&◌, Option, none, some, List, [], ◌∷◌, ◌++◌, Text,
  codes, list_eq, ltb, is_empty, contains, length, if◌then◌else◌,
}
use clave.Core.App.{AppId, LaunchProfile, default_profile}
use clave.Core.Path.{under}

pub data Observation : Type 0 where
  path_access : (path : Text) (write : Bool) → Observation
  named_object : (name : Text) → Observation

pub record LearnSession : Type 0 where
  pub app_id : AppId
  pub observations : List Observation

pub record LearnedProfile : Type 0 where
  pub app_id : AppId
  pub work_data_roots : List Text
  pub launch : LaunchProfile

-- `LearnSession::new`
abbrev pub new_session : AppId → LearnSession
new_session app_id = record { app_id = app_id; observations = [] }

-- `LearnSession::record`
unfoldable pub observe : Observation → LearnSession → LearnSession
observe obs s = record s { observations = s.observations ++ (obs ∷ []) }

-- `LearnSession::len`
abbrev pub session_len : LearnSession → ℕ
session_len s = length s.observations

-- `LearnSession::is_empty`
abbrev pub session_is_empty : LearnSession → Bool
session_is_empty s = is_empty s.observations

-- What stands before the last separator, if there is one
before_last : Text → Option Text
before_last [] = none
before_last (c ∷ s) = before_by (before_last s)
  where
    before_by : Option Text → Option Text
    before_by (some dir) = some (c ∷ dir)
    before_by none = if c == b'/' || c == b'\\' then some [] else none

unless_empty : Option Text → Option Text
unless_empty none = none
unless_empty (some dir) = if is_empty dir then none else some dir

unfoldable pub parent_dir : Text → Option Text
unfolding before_last unless_empty
parent_dir path = unless_empty (before_last path)

-- The order of strings, which is that of their code points
text_ltb : Text → Text → Bool
text_ltb [] [] = false
text_ltb [] (y ∷ t) = true
text_ltb (x ∷ s) [] = false
text_ltb (x ∷ s) (y ∷ t) = let rest = text_ltb s t in if ltb x y then true else x == y && rest

-- `sort` on strings
insert_text : Text → List Text → List Text
unfolding text_ltb
insert_text s [] = s ∷ []
insert_text s (t ∷ ts) =
    let rest = insert_text s ts in if text_ltb t s then t ∷ rest else s ∷ t ∷ ts

sort_texts : List Text → List Text
unfolding insert_text
sort_texts [] = []
sort_texts (s ∷ ss) = insert_text s (sort_texts ss)

abbrev push_root : Option Text → List Text → List Text
push_root none roots = roots
push_root (some dir) roots = if contains dir roots then roots else roots ++ (dir ∷ [])

-- One turn of the loop of `synthesize`: the roots, and whether named objects were seen.
unfoldable pub learn_one : Text → Observation → List Text × Bool → List Text × Bool
unfolding under parent_dir
learn_one mount_point (path_access path true) (roots, named) =
    if under path mount_point then (roots, named) else (push_root (parent_dir path) roots, named)
learn_one mount_point (path_access path false) (roots, named) = (roots, named)
learn_one mount_point (named_object name) (roots, named) = (roots, true)

learn_all : Text → List Observation → List Text × Bool → List Text × Bool
unfolding learn_one
learn_all mount_point [] seen = seen
learn_all mount_point (obs ∷ rest) seen =
    learn_all mount_point rest (learn_one mount_point obs seen)

abbrev profile_of : AppId → Bool → LaunchProfile
profile_of app_id named = record default_profile {
  profile_subdir = app_id;
  namespace_prefix = if named then some (codes "Clave-" ++ (app_id ++ codes "\\")) else none;
}

-- `LearnSession::synthesize`
unfoldable pub synthesize : Text → LearnSession → LearnedProfile
unfolding learn_all sort_texts
synthesize mount_point s =
    let (roots, named) = learn_all mount_point s.observations ([], false) in
    record {
      app_id = s.app_id;
      work_data_roots = sort_texts roots;
      launch = profile_of s.app_id named;
    }
