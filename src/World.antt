-- ===== src/World.antt =====
-- The state of the file layer: that of the block layer, the path cache (`iname_cache` of
-- lib/file_layer.c), and a clock. What `time` returns is a parameter: `now i` is its i-th value.
use file_system_fuse.Base.{ℕ, ◌+◌, ◌-◌, ◌^◌, Option, none, some}
use file_system_fuse.Fs.{Fs, M, Run, ok, fault, out_of_fuel}
use file_system_fuse.State.{Outcome, Cmd, done, crash, no_fuel}
use file_system_fuse.Cache.{Cache}

pub record World : Type 0 where
  pub fs : Fs
  pub cache : Cache
  pub now : ℕ → ℕ
  pub calls : ℕ

abbrev pub W {ℓ} : Type ℓ → Type ℓ
W A = Cmd World A

-- A command of the block layer.
abbrev pub with_fs {ℓ} : {A : Type ℓ} → World → Run A → Outcome World A
with_fs w (ok a s) = done a (record w { fs = s })
with_fs w fault = crash
with_fs w out_of_fuel = no_fuel

abbrev pub on_fs {ℓ} : {A : Type ℓ} → M A → W A
on_fs m w = with_fs w (m w.fs)

-- A command of the cache.
abbrev pub with_cache {ℓ} : {A : Type ℓ} → World → Outcome Cache A → Outcome World A
with_cache w (done a c) = done a (record w { cache = c })
with_cache w crash = crash
with_cache w no_fuel = no_fuel

abbrev pub on_cache {ℓ} : {A : Type ℓ} → Cmd Cache A → W A
on_cache m w = with_cache w (m w.cache)

-- `time(NULL)`
abbrev pub time : W ℕ
time w = done (w.now w.calls) (record w { calls = w.calls + 1 })

-- A use of a pointer that may be null.
abbrev pub need {ℓ} : {A : Type ℓ} → Option A → W A
need none w = crash
need (some a) w = done a w

-- `-n` as an `ssize_t`
abbrev pub negative : ℕ → ℕ
negative n = 2 ^ 64 - n

-- The numbers of <errno.h> on Linux.
abbrev pub enoent : ℕ
enoent = 2

abbrev pub eexist : ℕ
eexist = 17

abbrev pub enotdir : ℕ
enotdir = 20

abbrev pub einval : ℕ
einval = 22

abbrev pub enotempty : ℕ
enotempty = 39

abbrev pub edquot : ℕ
edquot = 122
