-- ===== src/Evidence/Sections.antt =====
-- core/evidence/section.go: the sections of a document.
use stacks.Base.{not, List, [], ◌∷◌, Text, is_empty, trim_space, Result, ok, refuse, ◌>>=◌, ◌>>◌}
use stacks.Encodings.Ints.{ℤ, negative}
use stacks.Encodings.Utf8.{valid_string}

-- `SectionInput`, and `Section` with the same fields.
pub record Section : Type 0 where
  pub id : Text
  pub title : Text
  pub parent_id : Text
  pub path : List Text
  pub order : ℤ
  pub role : Text
  pub text : Text

-- The loop over the path.
unfoldable pub trim_path : List Text → Result (List Text)
trim_path [] = ok []
trim_path (path_title ∷ rest) = do
  refuse (is_empty (trim_space path_title)) "path title is required"
  path ← trim_path rest
  ok (trim_space path_title ∷ path)

unfoldable pub new_section : Section → Result Section
new_section input = do
  let id = trim_space input.id
  let title = trim_space input.title
  let role = trim_space input.role
  refuse (is_empty id) "ID is required"
  refuse (is_empty title) "title is required"
  refuse (is_empty role) "role is required"
  refuse (negative input.order) "order must not be negative"
  refuse (not (valid_string input.text)) "text must be valid UTF-8"
  path ← trim_path input.path
  ok (record {
    id = id;
    title = title;
    parent_id = trim_space input.parent_id;
    path = path;
    order = input.order;
    role = role;
    text = input.text;
  })
