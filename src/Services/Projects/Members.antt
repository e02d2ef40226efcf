-- ===== src/Services/Projects/Members.antt =====
-- backend/app/services/projects.py: the members of a project.
use relay.Prelude.{
  ℕ, Option, List, [], ◌∷◌, ◌++◌, String, map, keep, find, not, ◌==◌, if◌then◌else◌,
}
use relay.Domain.Errors.{project_not_found}
use relay.Store.{ProjectMember, uuid}
use relay.Session.{
  Exec, pure, gets, or_raise, raise_if, modify, commit, uuid4, record_own_event, ◌>>=◌, ◌>>◌,
}
use relay.Repository.Content.{project}

pub record ProjectMemberInput : Type 0 where
  pub display_name : String
  pub email : Option String
  pub notion_identity : Option String
  pub github_username : Option String

-- `members`; the database's order of names is a parameter.
unfoldable pub members :
    (List ProjectMember → List ProjectMember) → ℕ → ℕ → Exec (List ProjectMember)
members by_name owner project_id = do
  project project_id owner
  gets (λ db.
      by_name (keep (λ (m : ProjectMember). m.project_workspace_id == project_id) db.members))

abbrev pub member_of : ℕ → ℕ → ProjectMemberInput → ProjectMember
member_of id project_id input = record {
  id = id;
  project_workspace_id = project_id;
  display_name = input.display_name;
  email = input.email;
  notion_identity = input.notion_identity;
  github_username = input.github_username;
}

-- `add_member`
unfoldable pub add_member : ℕ → ℕ → ProjectMemberInput → Exec ProjectMember
add_member owner project_id input = do
  project project_id owner
  id ← uuid4
  modify (λ db. record db { members = db.members ++ member_of id project_id input ∷ [] })
  record_own_event owner "PROJECT_MEMBER_ADDED"
      (("project_id", uuid project_id) ∷ ("member_id", uuid id) ∷ [])
  commit
  pure (member_of id project_id input)

-- `_owned_member`
unfoldable pub owned_member : ℕ → ℕ → Exec ProjectMember
owned_member project_id member_id = do
  found ← gets (λ db. find (λ (m : ProjectMember). m.id == member_id) db.members)
  m ← or_raise found project_not_found
  raise_if (not (m.project_workspace_id == project_id)) project_not_found
  pure m

-- `update_member`
unfoldable pub update_member : ℕ → ℕ → ℕ → ProjectMemberInput → Exec ProjectMember
unfolding owned_member
update_member owner project_id member_id input = do
  project project_id owner
  m ← owned_member project_id member_id
  modify (λ db. record db {
    members =
        map (λ x. if x.id == m.id then member_of m.id m.project_workspace_id input else x)
          db.members;
  })
  record_own_event owner "PROJECT_MEMBER_UPDATED"
      (("project_id", uuid project_id) ∷ ("member_id", uuid m.id) ∷ [])
  commit
  pure (member_of m.id m.project_workspace_id input)

-- `remove_member`
unfoldable pub remove_member : ℕ → ℕ → ℕ → Exec Unit
unfolding owned_member
remove_member owner project_id member_id = do
  project project_id owner
  m ← owned_member project_id member_id
  modify (λ db. record db { members = keep (λ x. not (x.id == m.id)) db.members })
  record_own_event owner "PROJECT_MEMBER_REMOVED"
      (("project_id", uuid project_id) ∷ ("member_id", uuid member_id) ∷ [])
  commit
