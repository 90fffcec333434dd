-- ===== src/Logger/Made.antt =====
-- The logger that `Init` makes.
use xmongodb.Common.{
  ℕ, ◌≡◌, refl, ap, ◌∙◌, Bool, Option, some, [], Result, ok, err, ◌||◌, if◌then◌else◌, inl, inr,
  Bool-cases,
}
use xmongodb.Bytes.{Bytes, bytes_equal}
use xmongodb.RecordId.Text.{codes}
use xmongodb.Os.{Failure}
use xmongodb.Config.{LoggerConfig}
use xmongodb.Logger.{
  Logrus, Formatter, Target, stdout, opened, Call, level_of, formatter_of, use_file, init, write,
}

-- What a logger was set to.
pub record View (H : Type 0) : Type 0 where
  pub level : ℕ
  pub formatter : Option Formatter
  pub target : Option (Target H)

pub record IsLawful {A G E H F : Type 0} (lr : Logrus A G E H F) : Type 0 where
  pub view : G → View H
  pub view-set_level : (l : ℕ) (g : G) → view (lr.set_level l g) ≡ record (view g) { level = l }
  pub view-set_formatter :
      (x : Formatter) (g : G) → view (lr.set_formatter x g) ≡ record (view g) { formatter = some x }
  pub view-set_output :
      (t : Target H) (g : G) → view (lr.set_output t g) ≡ record (view g) { target = some t }

abbrev pub is_console : Bytes → Bool
is_console output = bytes_equal output (codes "stdout") || bytes_equal output []

abbrev pub target_of : {H F : Type 0} → Result Failure H × F → Target H
target_of (ok h, f) = opened h
target_of (err e, f) = stdout

module _ {A G E H F : Type 0} (lr : Logrus A G E H F) (of_text : Bytes → A)
    (laws : IsLawful lr) where
  -- The logger `g` is set to what the settings say.
  abbrev pub SetTo : LoggerConfig → F → G → Type 0
  SetTo cfg f g = laws.view g ≡ record {
    level = level_of lr of_text (lr.parse_level cfg.level);
    formatter = some (formatter_of lr of_text cfg.format);
    target =
        some
          (if is_console cfg.output then stdout else target_of (lr.open_file cfg.output 0o666 f));
  }

  -- The new logger before its output is set.
  abbrev clad : LoggerConfig → G
  clad cfg =
      lr.set_formatter (formatter_of lr of_text cfg.format)
        (lr.set_level (level_of lr of_text (lr.parse_level cfg.level)) lr.new)

  view-clad :
      (cfg : LoggerConfig) (t : Target H)
      → laws.view (lr.set_output t (clad cfg)) ≡ record {
        level = level_of lr of_text (lr.parse_level cfg.level);
        formatter = some (formatter_of lr of_text cfg.format);
        target = some t;
      }
  view-clad cfg t = rw (laws.view-set_output, laws.view-set_formatter, laws.view-set_level) refl

  use_file-view :
      (path : Bytes) (g : G) (r : Result Failure H × F)
      → (use_file lr of_text path g r).0 ≡ lr.set_output (target_of r) g
  use_file-view path g (ok h, f) = refl
  use_file-view path g (err e, f) = refl

  -- Whatever logger there was, `Init` makes one that is set to the level that the settings name, or to
  -- `Info` if that is none, to the form that they name, and to the file that they name, or to the standard
  -- output if it is that or cannot be opened. All that is written afterwards goes to this logger.
  pub init-SetTo :
      (cfg : LoggerConfig) (f : F)
      → (g : G) × (SetTo cfg f g)
        × ((old : Option G) → (init lr of_text cfg old f).0 ≡ some g)
        × ((c : Call A) (f' : F) → write lr of_text c (some g) f' ≡ (some g, lr.write c g f'))
  unfolding init write
  init-SetTo cfg f =
      let r = lr.open_file cfg.output 0o666 f in
      let g = λ (t : Target H). lr.set_output t (clad cfg) in
      elim (Bool-cases (is_console cfg.output)) [
        | inl on ↦
            (g stdout, view-clad cfg stdout ∙ rw on refl, (λ old. rw on refl), (λ c f'. refl))
        | inr off ↦ (
          g (target_of r),
          view-clad cfg (target_of r) ∙ rw off refl,
          (λ old. rw off (ap some (use_file-view cfg.output (clad cfg) r))),
          (λ c f'. refl),
        )
      ]
