-- ===== src/Kubectl/Output.antt =====
-- images/agent0-connector/src/kubectl/kubectl.go: the buffers that capture the output of kubectl.
pub mod Captured
use dash0_operator.Base.{
  ℕ, ◌+◌, ◌*◌, ◌-◌, Bool, true, List, [], ◌∷◌, ◌++◌, ltb, length, take, if◌then◌else◌,
}
use dash0_operator.Base.Bytes.{Bytes}

abbrev pub max_stdout_bytes : ℕ
max_stdout_bytes = 3 * 1024 * 1024

abbrev pub max_stderr_bytes : ℕ
max_stderr_bytes = 256 * 1024

pub record CappedBuffer : Type 0 where
  pub limit : ℕ
  pub buf : Bytes
  pub truncated : Bool

-- The length that Write reports is that of its argument, whatever is captured.
pub write : CappedBuffer → Bytes → CappedBuffer × ℕ
write c p =
    let remaining = c.limit - length c.buf in
    (
      if ltb 0 remaining
          then (if ltb remaining (length p)
              then record c { buf = c.buf ++ take remaining p; truncated = true }
              else record c { buf = c.buf ++ p })
          else if ltb 0 (length p)
          then record c { truncated = true }
          else c,
      length p,
    )

-- The writes of a subprocess, in order.
pub write_all : CappedBuffer → List Bytes → CappedBuffer
write_all c [] = c
write_all c (p ∷ ps) = write_all (write c p).0 ps
