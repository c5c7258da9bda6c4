-- ===== src/External.antt =====
-- Constants of the OpenMAX headers, which are not part of the repository.
use omxtranscode.Base.{ℕ, ◌≡◌, ◌≢◌, bit_and}

-- `OMX_BUFFERFLAG_*`
pub record BufferFlags : Type 0 where
  pub eos : ℕ
  pub starttime : ℕ
  pub time_unknown : ℕ
  pub endofframe : ℕ
  pub syncframe : ℕ
  pub endofnal : ℕ

-- The flags that the input buffers use are bits of their own.
pub record AreBits (f : BufferFlags) : Type 0 where
  pub some_starttime : f.starttime ≢ 0
  pub some_syncframe : f.syncframe ≢ 0
  pub some_endofframe : f.endofframe ≢ 0
  pub time_unknown-starttime : bit_and f.time_unknown f.starttime ≡ 0
  pub syncframe-starttime : bit_and f.syncframe f.starttime ≡ 0
  pub endofframe-starttime : bit_and f.endofframe f.starttime ≡ 0
  pub starttime-syncframe : bit_and f.starttime f.syncframe ≡ 0
  pub time_unknown-syncframe : bit_and f.time_unknown f.syncframe ≡ 0
  pub endofframe-syncframe : bit_and f.endofframe f.syncframe ≡ 0
  pub starttime-endofframe : bit_and f.starttime f.endofframe ≡ 0
  pub time_unknown-endofframe : bit_and f.time_unknown f.endofframe ≡ 0
  pub syncframe-endofframe : bit_and f.syncframe f.endofframe ≡ 0

-- `OMX_COMMANDTYPE`, `OMX_STATETYPE`, and the indices and values of the settings.
pub record Commands : Type 0 where
  pub state_set : ℕ
  pub port_enable : ℕ
  pub port_disable : ℕ
  pub flush : ℕ
  pub idle : ℕ
  pub executing : ℕ
  pub config_image_filter : ℕ
  pub deinterlace_advanced : ℕ
  pub param_brcm_extra_buffers : ℕ
  pub param_video_port_format : ℕ
  pub param_video_bitrate : ℕ
  pub coding_avc : ℕ
  pub control_rate_variable : ℕ
