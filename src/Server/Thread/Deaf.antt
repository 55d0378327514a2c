-- ===== src/Server/Thread/Deaf.antt =====
-- pango_client once a packet has brought the status CRC8_TEST_FAILED, 255, as its status byte.
use panngo.Base.{
  ℕ, ◌≡◌, refl, ap, subst, sym, ◌∙◌, arith, List, [], ◌∷◌, length, All, append-drop_whole,
}
use panngo.Server.Data.{stay, crc8_test_failed}
use panngo.Server.Platform.{Platform}
use panngo.Server.Thread.{
  received, Event, ThreadState, fill, handle_packet, thread_round, pango_client_loop, waiting,
}
use panngo.Server.Thread.Handle.{IsIntact, handle_packet_deaf}
use panngo.Server.Thread.Loop.{loop_stays}

-- A whole packet with a checksum that fits.
abbrev pub IsWhole : Event → Type 0
IsWhole e = (bytes : List ℕ) × (e.recv ≡ received bytes) × (length bytes ≡ 10) × IsIntact bytes

module _ (p : Platform) where
  deaf_round :
      (t : ThreadState p) (bytes : List ℕ) (e : Event)
      → t.status ≡ crc8_test_failed
      → length t.client_data_buff ≡ 10
      → e.recv ≡ received bytes
      → length bytes ≡ 10
      → IsIntact bytes
      → thread_round p e t ≡ record t { client_data_buff = bytes }
  deaf_round t bytes e deaf size came ten intact =
      takes
      ∙ handle_packet_deaf p e.now full (subst IsIntact (sym whole) intact) deaf
      ∙ ap (λ (buff : List ℕ). record t { client_data_buff = buff }) whole
    where
      whole : fill bytes t.client_data_buff ≡ bytes
      whole = append-drop_whole bytes t.client_data_buff (ten ∙ sym size)

      full : ThreadState p
      full = record t { client_data_buff = fill bytes t.client_data_buff }

      takes : thread_round p e t ≡ handle_packet p e.now full
      takes = unfold thread_round in ground (arith, came)

  -- Once the status of a thread is CRC8_TEST_FAILED while its loop goes on, any number of whole
  -- intact packets, a CLOSE_APP among them, leaves the thread waiting with an unchanged session:
  -- nothing is sent to the client, and neither database is touched.
  pub deaf_forever :
      (t : ThreadState p) (events : List Event)
      → t.status ≡ crc8_test_failed
      → t.return_value ≡ stay
      → length t.client_data_buff ≡ 10
      → All IsWhole events
      → (u : ThreadState p) × (pango_client_loop p t events ≡ waiting u) × (u.session ≡ t.session)
  unfolding pango_client_loop
  deaf_forever t [] deaf stays size whole = (t, refl, refl)
  deaf_forever t (e ∷ es) deaf stays size ((bytes, came, ten, intact), others) =
      let round = deaf_round t bytes e deaf size came ten intact in
      let next : ThreadState p = record t { client_data_buff = bytes } in
      let (u, waits, same) = deaf_forever next es deaf stays ten others in
      (
        u,
        loop_stays p e t es (ap (λ (v : ThreadState p). v.return_value) round ∙ stays)
            ∙ ap (λ (v : ThreadState p). pango_client_loop p v es) round
            ∙ waits,
        same,
      )
