-- ===== src/Manager/New.antt =====
-- internal/adapter/recording/manager.go: NewManager and OnComplete.
use cap_mesh.Prelude.{
  true, false, ◌||◌, [], Option, none, some, Result, ok, err, ◌>>◌, fail_if, ℤ, pos_part, below,
}
use cap_mesh.Text.{Text, is_empty}
use cap_mesh.Manager.{Config, Manager}

-- Config as it is given, before its sizes are checked.
pub record Options : Type 0 where
  pub directory : Text
  pub segment_size : ℤ
  pub max_session_size : ℤ
  pub max_normal_total : ℤ
  pub queue_size : ℤ
  pub flush_interval : ℤ
  pub sync_interval : ℤ

pub data OptionsError : Type 0 where
  no_directory negative_size bad_queue_size bad_interval : OptionsError
  unresolved not_created : Text → OptionsError

unfoldable pub config_of : Text → Options → Config
config_of root o = record {
  directory = root;
  segment_size = pos_part o.segment_size;
  max_session_size = pos_part o.max_session_size;
  max_normal_total = pos_part o.max_normal_total;
  queue_size = pos_part o.queue_size;
}

unfoldable pub empty_manager : Config → Manager
empty_manager c = record {
  config = c;
  active = [];
  completed = [];
  recovery = [];
  closing = false;
  disks = [];
  handled = false;
  told = [];
  cancelled = [];
}

-- The absolute root is made.
unfoldable pub rooted :
    (Text → Option Text) → Options → Result Text Text → Result OptionsError Manager
unfolding config_of empty_manager
rooted mkdir o (err e) = err (unresolved e)
rooted mkdir o (ok root) = elim (mkdir root) [
  | some e ↦ err (not_created e)
  | none ↦ ok (empty_manager (config_of root o))
]

-- filepath.Abs and os.MkdirAll are parameters.
unfoldable pub new_manager :
    (Text → Result Text Text) → (Text → Option Text) → Options → Result OptionsError Manager
unfolding rooted
new_manager absolute mkdir o = do
  fail_if (is_empty o.directory) no_directory
  fail_if (below o.segment_size 0 || (below o.max_session_size 0 || below o.max_normal_total 0))
      negative_size
  fail_if (below o.queue_size 1) bad_queue_size
  fail_if (below o.flush_interval 1 || below o.sync_interval 1) bad_interval
  rooted mkdir o (absolute o.directory)

unfoldable pub on_complete : Manager → Manager
on_complete m = record m { handled = true }
