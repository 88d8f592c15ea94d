-- ===== src/Session/References/Tests.antt =====
-- The references of a row whose role is staged in the session of the run's tests.
use universal_data_onboarder.Base.{
  ◌≡◌, refl, List, [], ◌∷◌, none, some, Text, codes, ===_iff, arith,
}
use universal_data_onboarder.Base.Dict.{Dict, get, put}
use universal_data_onboarder.Store.{pending}
use universal_data_onboarder.Session.Manager.{new_session, push_job, add_job_to_session}
use universal_data_onboarder.Session.Run.Tests.{Documents, listed, both_added}
use universal_data_onboarder.Session.References.{
  staged_row, Resolved, FoundRow, RowDb, entity_for, resolve_session_references,
}
use universal_data_onboarder.Session.References.Laws.{
  AsksFor, Extends, lookup, resolve_session_references-Extends,
}

abbrev row : Text → FoundRow
row id = record {
  id = codes "r";
  external_id = id;
  mapped_fields = [];
  commit_status = pending;
  committed_entity_id = none;
}

-- A row for the first id that is asked for.
abbrev first_row : List Text → List FoundRow
first_row [] = []
first_row (id ∷ ids) = row id ∷ []

abbrev rows : RowDb Documents
rows = record {
  find_rows = λ s job_ids e ids. first_row ids;
  find_row = λ s job_ids e id. some (row id);
}

rows-AsksFor : AsksFor rows
rows-AsksFor s job_ids e [] = tt
rows-AsksFor s job_ids e (id ∷ ids) = (ground (arith, ===_iff id id), tt)

abbrev values : Dict (List Text)
values = (codes "roleName", codes "clerk" ∷ []) ∷ []

role_of_name : entity_for (codes "roleName") ≡ codes "role"
unfolding entity_for
role_of_name = refl

abbrev resolved : Resolved
resolved =
    resolve_session_references listed rows both_added (codes "s") (codes "roleName" ∷ []) values []

finds_staged :
    lookup resolved (codes "roleName") (codes "clerk") ≡ some (staged_row (codes "clerk") [])
unfolding resolve_session_references add_job_to_session new_session push_job get put
finds_staged = refl

resolve_session_references-Extends_example :
    Extends none (lookup resolved (codes "roleName") (codes "clerk"))
unfolding get
resolve_session_references-Extends_example =
    resolve_session_references-Extends listed rows rows-AsksFor both_added (codes "s")
      (codes "roleName" ∷ []) values [] (codes "roleName") (codes "clerk")
