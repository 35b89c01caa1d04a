-- ===== src/Daemon/Requests/Spec.antt =====
-- The configuration state as its clients see it: for each type a committed, a pending and a last
-- applied configuration, as values that share nothing.
use jack.Base.{
  String, ◌==◌, Bool, true, false, not, Option, none, some, List, [], ◌∷◌, is_some, if◌then◌else◌,
}
use jack.Base.Outcome.{Outcome, ok, ◌>>=◌, ◌>>◌, reject}
use jack.Types.Value.{Value}
use jack.Types.Codec.{Codec}
use jack.Daemon.Config.{Config}
use jack.Daemon.Path.{parse_config_type, set_value}
use jack.Daemon.Registry.{PluginRegistry}
use jack.Daemon.Server.{rewrite_path}
use jack.Daemon.Server.Edits.{copy_as}
use jack.Daemon.Requests.{Request, load_file, set, commit, revert, applied}

pub record Store : Type 0 where
  pub known : String → Bool
  pub committed : String → Option Config
  pub pending : String → Option Config
  pub last_applied : String → Option Config

abbrev pub empty_store : Store
empty_store = record {
  known = λ k. false;
  committed = λ k. none;
  pending = λ k. none;
  last_applied = λ k. none;
}

-- A function with one value changed.
abbrev pub update {ℓ} : {A : Type ℓ} → (String → A) → String → A → String → A
update f type a k = if type == k then a else f k

abbrev pub staged : String → Config → Store → Store
staged type c σ = record σ { pending = update σ.pending type (some c) }

module _ (codec : Codec) (registry : PluginRegistry) where
  -- A `set` changes what is pending, or else a copy of what is committed.
  abbrev pub edited : String → Store → Option Config
  edited type σ =
      if is_some (σ.pending type) then σ.pending type else copy_as codec type (σ.committed type)

  unfoldable pub edit : String → Value → Store → Outcome (String × Config)
  edit raw v σ = do
    type ← parse_config_type (rewrite_path registry raw)
    reject (not (σ.known type)) "unknown config type"
    c ← set_value codec (edited type σ) (rewrite_path registry raw) v
    ok (type, c)

  abbrev pub after_edit : Store → Outcome (String × Config) → Store
  after_edit σ (ok (type, c)) = staged type c σ
  after_edit σ failed = σ

  unfoldable pub perform : Request → Store → Store
  unfolding edit
  perform (load_file type c) σ = record σ {
    known = update σ.known type true;
    committed = update σ.committed type (some c);
    pending = update σ.pending type none;
  }
  perform (set path v) σ = after_edit σ (edit path v σ)
  perform commit σ = record σ {
    committed = λ k. if is_some (σ.pending k) then σ.pending k else σ.committed k;
    pending = λ k. none;
  }
  perform revert σ = record σ { pending = λ k. none }
  perform (applied type) σ = record σ {
    known = update σ.known type true;
    last_applied = update σ.last_applied type (σ.committed type);
  }

  unfoldable pub perform_all : List Request → Store → Store
  perform_all [] σ = σ
  perform_all (r ∷ rs) σ = perform_all rs (perform r σ)
