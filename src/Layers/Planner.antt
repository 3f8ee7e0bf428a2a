-- ===== src/Layers/Planner.antt =====
-- stack/publish/model.rs, route.rs, fingerprint.rs: what the planner and the resolver of validated
-- changes share. What they ask of the merged view, the ignore rules, the hashes and the file system
-- is the record `World`.
pub mod Plan
pub mod Contents
pub mod Resolve
pub mod Validated
pub mod Passed
pub mod Images
pub mod Settled
pub mod Expects
pub mod Unmoved
use ephemeral_sandbox.Prelude.{
  ℕ, ◌+◌, ◌*◌, Bool, true, false, ◌&&◌, ◌||◌, not, Option, none, some, List, [], ◌∷◌, ◌++◌, Text,
  text, text_eq, has, length, ◌==◌, if◌then◌else◌,
}
use ephemeral_sandbox.Layers.Model.{Manifest}
use ephemeral_sandbox.Layers.Changes.{LayerChange, LayerPath}
use ephemeral_sandbox.Layers.Changes.Path.{parts_from}
use ephemeral_sandbox.Merge.Origins.{LineRange, Origin}

pub record PublishBaseRevision : Type 0 where
  pub manifest_version : ℕ
  pub root_hash : Text
  pub layer_count : ℕ

pub record PublishBase : Type 0 where
  pub manifest : Manifest
  pub revision : PublishBaseRevision

pub data LayerProtectedDropReason : Type 0 where
  unsupported_special_file invalid_layer_path command_scratch_path : LayerProtectedDropReason

pub record LayerProtectedDrop : Type 0 where
  pub path : Text
  pub reason : LayerProtectedDropReason

pub record PublishValidatedChangesRequest : Type 0 where
  pub base : PublishBase
  pub changes : List LayerChange
  pub protected_drops : List LayerProtectedDrop

pub record ResolvedChangeset : Type 0 where
  pub changes : List LayerChange
  pub origin : List (LayerPath × List (LineRange × Origin))

pub record PublishRouteSummary : Type 0 where
  pub source_count : ℕ
  pub ignored_count : ℕ

pub data ContentFingerprint : Type 0 where
  absent_content : ContentFingerprint
  file_content : Text → Bool → ContentFingerprint
  symlink_content : Text → ContentFingerprint
  directory_content : ContentFingerprint

pub record SourceConflict : Type 0 where
  pub path : LayerPath
  pub expected : ContentFingerprint
  pub actual : ContentFingerprint

-- `PublishReject`, by its reason and with what the reason comes with; messages are left out.
pub data PublishReject : Type 0 where
  invalid_base_revision route_preparation_failed : PublishReject
  protected_path : LayerPath → PublishReject
  protected_drop : LayerProtectedDrop → PublishReject
  source_conflict : SourceConflict → PublishReject
  opaque_dir_protected_descendant : LayerPath → PublishReject
  opaque_dir_mixed_routes : LayerPath → PublishReject
  opaque_dir_expansion_limit : LayerPath → PublishReject

-- `LayerStackError` as far as these modules see it.
pub data PlanError : Type 0 where
  rejected : PublishReject → PlanError
  file_too_large io : PlanError

pub data Checked {ℓ} (A : Type ℓ) : Type ℓ where
  pass : A → Checked A
  fail : PlanError → Checked A

-- The `?` operator.
unfoldable pub and_then : {A B : Type 0} → Checked A → (A → Checked B) → Checked B
and_then (pass a) f = f a
and_then (fail e) f = fail e

pub data MergedEntry : Type 0 where
  absent : MergedEntry
  file : List ℕ → Bool → MergedEntry
  link : Text → MergedEntry
  folder : MergedEntry

-- The view of the layers of a manifest (projection/mod.rs), the ignore rules of the base (gitignore.rs),
-- SHA-256, the root hash, and the file that a written file is read from, as far as it is read.
pub record World : Type 0 where
  pub read_entry : LayerPath → Manifest → Checked MergedEntry
  pub read_entry_limited : LayerPath → Manifest → Checked MergedEntry
  pub visible_descendants : LayerPath → Manifest → Checked (List LayerPath)
  pub is_ignored : Manifest → LayerPath → Bool → Checked Bool
  pub digest : List ℕ → Text
  pub manifest_root_hash : Manifest → Text
  pub read_source : Text → Checked (List ℕ)

abbrev pub opaque_dir_expansion_limit_count : ℕ
opaque_dir_expansion_limit_count = 4096

pub data RouteKind : Type 0 where
  source ignored : RouteKind

unfoldable pub is_source : RouteKind → Bool
is_source source = true
is_source ignored = false

-- `part == ".layer-metadata" || part.starts_with(".wh.")`.
unfoldable pub reserved_part : Text → Bool
unfolding text_eq
reserved_part part = text_eq part (text ".layer-metadata") || elim part [
  | [] ↦ false
  | a ∷ rest ↦ elim rest [
    | [] ↦ false
    | b ∷ rest' ↦ elim rest' [
      | [] ↦ false
      | c ∷ rest'' ↦ elim rest'' [
        | [] ↦ false
        | d ∷ _ ↦ a == b'.' && b == b'w' && c == b'h' && d == b'.'
      ]
    ]
  ]
]

unfoldable pub any_reserved : List Text → Bool
unfolding reserved_part
any_reserved [] = false
any_reserved (part ∷ parts) = reserved_part part || any_reserved parts

abbrev pub reserved_entries : List Text
reserved_entries =
    text "manifest.json"
    ∷ text "workspace.json"
    ∷ text "layers"
    ∷ text "staging"
    ∷ text ".layer-metadata"
    ∷ []

unfoldable pub first_reserved : List Text → Bool
unfolding has
first_reserved [] = false
first_reserved (part ∷ _) = has part reserved_entries

unfoldable pub is_protected : Text → Bool
unfolding parts_from any_reserved first_reserved
is_protected path = first_reserved (parts_from [] path) || any_reserved (parts_from [] path)

unfoldable pub fingerprint_of : World → MergedEntry → ContentFingerprint
fingerprint_of w absent = absent_content
fingerprint_of w (file bytes executable) = file_content (w.digest bytes) executable
fingerprint_of w (link target) = symlink_content target
fingerprint_of w folder = directory_content

unfoldable pub content_fingerprint : World → Manifest → LayerPath → Checked ContentFingerprint
unfolding and_then fingerprint_of
content_fingerprint w manifest path =
    and_then (w.read_entry path manifest) (λ entry. pass (fingerprint_of w entry))

-- `a == b` on Booleans.
unfoldable pub flag_eq : Bool → Bool → Bool
flag_eq true b = b
flag_eq false b = not b

unfoldable pub fingerprint_eq : ContentFingerprint → ContentFingerprint → Bool
unfolding text_eq flag_eq
fingerprint_eq absent_content absent_content = true
fingerprint_eq directory_content directory_content = true
fingerprint_eq (file_content d x) (file_content e y) = text_eq d e && flag_eq x y
fingerprint_eq (symlink_content s) (symlink_content t) = text_eq s t
fingerprint_eq _ _ = false
