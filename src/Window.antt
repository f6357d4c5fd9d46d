-- ===== src/Window.antt =====
-- The functions of RS485/tl/native_client/jni/system/window.h that send requests to a window. A
-- window and its two hooks are a parameter; a request is the code of an operation with the list of
-- its arguments. An `int` argument is a 32-bit word, a time a 64-bit word.
use qf.Prelude.{ℕ, List, [], ◌∷◌, Option}

pub record Rect : Type 0 where
  pub left : ℕ
  pub top : ℕ
  pub right : ℕ
  pub bottom : ℕ

pub data Argument : Type 0 where
  int : ℕ → Argument
  size : ℕ → Argument
  rect : Option Rect → Argument
  time : ℕ → Argument

-- `perform` and `dequeueBuffer_DEPRECATED`, which give a status, and may change the window.
pub record Hooks : Type 1 where
  pub Window : Type 0
  pub Buffer : Type 0
  pub perform : Window → ℕ → List Argument → ℕ × Window
  pub dequeue_buffer : Window → (ℕ × Option Buffer) × Window

abbrev pub op_set_usage : ℕ
op_set_usage = 0

abbrev pub op_set_crop : ℕ
op_set_crop = 3

abbrev pub op_set_buffer_count : ℕ
op_set_buffer_count = 4

abbrev pub op_set_buffers_geometry : ℕ
op_set_buffers_geometry = 5

abbrev pub op_set_buffers_transform : ℕ
op_set_buffers_transform = 6

abbrev pub op_set_buffers_timestamp : ℕ
op_set_buffers_timestamp = 7

abbrev pub op_set_buffers_dimensions : ℕ
op_set_buffers_dimensions = 8

abbrev pub op_set_buffers_format : ℕ
op_set_buffers_format = 9

abbrev pub op_set_scaling_mode : ℕ
op_set_scaling_mode = 10

abbrev pub op_api_connect : ℕ
op_api_connect = 13

abbrev pub op_api_disconnect : ℕ
op_api_disconnect = 14

abbrev pub op_set_buffers_user_dimensions : ℕ
op_set_buffers_user_dimensions = 15

abbrev pub op_set_post_transform_crop : ℕ
op_set_post_transform_crop = 16

module _ (h : Hooks) where
  -- A function of the header, once its arguments are given.
  abbrev pub Function : Type 0
  Function = h.Window → ℕ × h.Window

  unfoldable pub set_usage : ℕ → Function
  set_usage usage window = h.perform window op_set_usage (int usage ∷ [])

  unfoldable pub connect : ℕ → Function
  connect api window = (0, window)

  unfoldable pub disconnect : ℕ → Function
  disconnect api window = (0, window)

  unfoldable pub set_crop : Option Rect → Function
  set_crop crop window = h.perform window op_set_crop (rect crop ∷ [])

  unfoldable pub set_post_transform_crop : Option Rect → Function
  set_post_transform_crop crop window = h.perform window op_set_post_transform_crop (rect crop ∷ [])

  unfoldable pub set_active_rect : Option Rect → Function
  unfolding set_post_transform_crop
  set_active_rect active_rect window = set_post_transform_crop active_rect window

  unfoldable pub set_buffer_count : ℕ → Function
  set_buffer_count buffer_count window =
      h.perform window op_set_buffer_count (size buffer_count ∷ [])

  unfoldable pub set_buffers_geometry : ℕ → ℕ → ℕ → Function
  set_buffers_geometry width height format window =
      h.perform window op_set_buffers_geometry (int width ∷ int height ∷ int format ∷ [])

  unfoldable pub set_buffers_dimensions : ℕ → ℕ → Function
  set_buffers_dimensions width height window =
      h.perform window op_set_buffers_dimensions (int width ∷ int height ∷ [])

  unfoldable pub set_buffers_user_dimensions : ℕ → ℕ → Function
  set_buffers_user_dimensions width height window =
      h.perform window op_set_buffers_user_dimensions (int width ∷ int height ∷ [])

  unfoldable pub set_buffers_format : ℕ → Function
  set_buffers_format format window = h.perform window op_set_buffers_format (int format ∷ [])

  unfoldable pub set_buffers_transform : ℕ → Function
  set_buffers_transform transform window =
      h.perform window op_set_buffers_transform (int transform ∷ [])

  unfoldable pub set_buffers_timestamp : ℕ → Function
  set_buffers_timestamp timestamp window =
      h.perform window op_set_buffers_timestamp (time timestamp ∷ [])

  unfoldable pub set_scaling_mode : ℕ → Function
  set_scaling_mode mode window = h.perform window op_set_scaling_mode (int mode ∷ [])

  unfoldable pub api_connect : ℕ → Function
  api_connect api window = h.perform window op_api_connect (int api ∷ [])

  unfoldable pub api_disconnect : ℕ → Function
  api_disconnect api window = h.perform window op_api_disconnect (int api ∷ [])

  unfoldable pub dequeue_buffer_and_wait : h.Window → (ℕ × Option h.Buffer) × h.Window
  dequeue_buffer_and_wait anw = h.dequeue_buffer anw
