-- ===== src/Pipeline/Tests.antt =====
-- A component with three ports in two domains, and the theorem there.
use omxtranscode.Base.{Yields, true, ◌≡◌, ℕ, refl, Option, none, some, List, [], ◌∷◌, arith}
use omxtranscode.PacketQueue.{Ptr, contents, IsCounted}
use omxtranscode.PacketQueue.Plain.{plain, queue_of}
use omxtranscode.Omx.{video_encode, BufferHeader, Delivery}
use omxtranscode.Omx.Sample.{flags, commands, header, machine, willing}
use omxtranscode.Pipeline.{Answers, omx_init_component, omx_setup_encoding_pipeline}
use omxtranscode.Pipeline.Setup.{awaited, IsSetUp, setup_encoding_pipeline-IsSetUp}
use omxtranscode.Pipeline.Disable.{all_disabled}
use omxtranscode.Pipeline.Init.{Initialises, init_component-IsNew}

-- Ports 200 and 201 of video, none of image, and port 340 of the last domain.
abbrev domains : List (Option (ℕ × ℕ))
domains = none ∷ some (200, 2) ∷ none ∷ some (340, 1) ∷ []

abbrev answers : Answers
answers = record { handle = λ p. 77; ports = λ p. domains }

abbrev events : List Delivery
events = all_disabled commands video_encode domains []

init_component-IsNew_example :
    Initialises flags willing
      (λ log call. refl)
      commands
      answers
      video_encode
      (machine events)
      []
      (omx_init_component flags commands willing answers video_encode (machine events))
init_component-IsNew_example =
    init_component-IsNew flags willing (λ log call. refl) commands answers video_encode
      (machine events) [] (omega arith) refl

-- All three components with these ports, and two headers for the decoder.
abbrev all_events : List Delivery
all_events = awaited flags willing (λ log call. refl) commands answers []

abbrev IsEmpty : Ptr → BufferHeader → Type 0
IsEmpty a b = b.n_filled_len ≡ 0

abbrev made : List (Ptr × BufferHeader)
made = (10, header 0 0) ∷ (20, header 0 0) ∷ []

no_headers : (a : Ptr) (b : BufferHeader) → none ≡ some b → IsEmpty a b
no_headers a b e = cc

setup_encoding_pipeline-IsSetUp_example :
    Yields
      (λ r.
        IsSetUp flags willing
          (λ log call. refl)
          commands
          answers
          IsEmpty
          (record { is_input = true })
          (10 ∷ 20 ∷ [])
          []
          r.1
        × (contents plain r.0 ≡ [])
        × IsCounted plain r.0)
      (omx_setup_encoding_pipeline flags commands willing answers plain
        (record { is_input = true })
        made
        4
        (queue_of [])
        (record (machine all_events) { heap = λ a. none }))
setup_encoding_pipeline-IsSetUp_example =
    setup_encoding_pipeline-IsSetUp flags willing (λ log call. refl) commands answers plain IsEmpty
      (record { is_input = true }) made 4 (queue_of [])
      (record (machine all_events) { heap = λ a. none }) [] (omega arith) (omega arith)
      (omega arith) (refl, omega arith, refl, (refl, omega arith, refl, tt)) (λ a b next h. h)
      (refl, (refl, tt)) no_headers refl
