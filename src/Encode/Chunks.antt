-- ===== src/Encode/Chunks.antt =====
-- The pieces in which a packet reaches the decoder's input buffers.
use omxtranscode.Base.{
  ℕ, zero, suc, ◌-◌, ◌≤◌, ◌<◌, ◌≡◌, refl, sym, ap, List, [], ◌∷◌, ◌++◌, arith, length, min, take,
  drop, take-append-drop, length-take, to_u64, ok,
}
use omxtranscode.External.{BufferFlags}
use omxtranscode.PacketQueue.{Packet}
use omxtranscode.Ticks.{pts_to_omx}
use omxtranscode.Omx.{BufferHeader}
use omxtranscode.Encode.{Feeder, input_flags, copy_to_buffer, fill_buffer}

take_append : (n : ℕ) (xs ys : List ℕ) → length xs ≡ n → take n (xs ++ ys) ≡ xs
take_append zero [] ys e = refl
take_append zero (x ∷ xs) ys e = absurd (omega arith)
take_append (suc n) [] ys e = absurd (omega arith)
take_append (suc n) (x ∷ xs) ys e = ap (λ l. x ∷ l) (take_append n xs ys (omega arith))

-- What the buffers hold, one after another.
abbrev pub sent_bytes : List BufferHeader → List ℕ
sent_bytes [] = []
sent_bytes (b ∷ bs) = take b.n_filled_len b.p_buffer ++ sent_bytes bs

module _ (f : BufferFlags) (key : ℕ) (packet : Packet) where
  -- The buffer holds the next bytes of `rest`, at least one and no more than fit, with the packet's
  -- time stamp; its flags tell the first piece of all, a key frame, and the last piece.
  pub record IsChunk (first : ℕ) (rest : List ℕ) (b : BufferHeader) : Type 0 where
    pub bytes : take b.n_filled_len b.p_buffer ≡ take b.n_filled_len rest
    pub filled : 0 < b.n_filled_len
    pub fits : b.n_filled_len ≤ b.n_alloc_len
    pub within : b.n_filled_len ≤ length rest
    pub stamp : b.n_time_stamp ≡ pts_to_omx (to_u64 packet.pts)
    pub flags : b.n_flags ≡ input_flags f key packet first (length rest - b.n_filled_len)

  -- `rest` reaches the decoder in the buffers `bs`.
  abbrev pub AreChunks : ℕ → List ℕ → List BufferHeader → Type 0
  AreChunks first rest [] = rest ≡ []
  AreChunks first rest (b ∷ bs) = IsChunk first rest b × AreChunks 0 (drop b.n_filled_len rest) bs

  pub AreChunks-sent_bytes :
      (first : ℕ) (rest : List ℕ) (bs : List BufferHeader)
      → AreChunks first rest bs
      → sent_bytes bs ≡ rest
  AreChunks-sent_bytes first rest [] c = sym c
  AreChunks-sent_bytes first rest (b ∷ bs) c =
      rw (c.0.bytes, AreChunks-sent_bytes 0 (drop b.n_filled_len rest) bs c.1)
        (take-append-drop b.n_filled_len rest)

  -- The buffer as the loop fills it.
  abbrev pub filled_header : Feeder → BufferHeader → BufferHeader
  filled_header s b =
      let n = min s.bytes_left b.n_alloc_len in
      record b {
        p_buffer = take n s.p ++ drop n b.p_buffer;
        n_filled_len = n;
        n_time_stamp = pts_to_omx (to_u64 packet.pts);
        n_flags = input_flags f key packet s.first_packet (s.bytes_left - n);
      }

  abbrev pub rest_of : Feeder → BufferHeader → Feeder
  rest_of s b =
      let n = min s.bytes_left b.n_alloc_len in
      record s { p = drop n s.p; bytes_left = s.bytes_left - n; first_packet = 0 }

  pub fill_buffer-filled_header :
      (s : Feeder) (b : BufferHeader)
      → length s.p ≡ s.bytes_left
      → length b.p_buffer ≡ b.n_alloc_len
      → fill_buffer f key packet s b ≡ ok (filled_header s b, rest_of s b)
  unfolding fill_buffer copy_to_buffer
  fill_buffer-filled_header s b whole sized = ground arith

  pub filled_header-IsChunk :
      (s : Feeder) (b : BufferHeader)
      → length s.p ≡ s.bytes_left
      → 0 < s.bytes_left
      → 0 < b.n_alloc_len
      → IsChunk s.first_packet s.p (filled_header s b)
  filled_header-IsChunk s b whole some_left room =
      let n = min s.bytes_left b.n_alloc_len in
      record {
        bytes = take_append n (take n s.p) (drop n b.p_buffer) (omega (arith, length-take n s.p));
        filled = omega arith;
        fits = omega arith;
        within = omega arith;
        stamp = refl;
        flags = ap (λ (l : ℕ). input_flags f key packet s.first_packet (l - n)) (sym whole);
      }
