-- ===== src/Server/Lifetime/Shutdown.antt =====
-- What `stop()` has done when it returns (board/ws_server.cpp).
use voice_edge_monitor.Base.{◌≡◌, subst, sym, true, arith}
use voice_edge_monitor.Audio.{SpeechSegment, Floats}
use voice_edge_monitor.Cli.Server.{Options}
use voice_edge_monitor.Queue.{Queue, make}
use voice_edge_monitor.Recorder.{Config, Recording, Store, enabled}
use voice_edge_monitor.Recorder
use voice_edge_monitor.Asr.{open_recogniser}
use voice_edge_monitor.Server.Lifetime.{
  Runtime, stopped, Loop, left, AsrLoop, ended, terminated, has_left, has_ended,
}
use voice_edge_monitor.Server.Lifetime.Start.{
  Surroundings, construct, make_store, start, after_asr, start_store, start_made, after_store,
  start_threads,
}
use voice_edge_monitor.Server.Lifetime.Steps.{Lives, lives_inv}
use voice_edge_monitor.Server.Lifetime.Joined.{AreJoined, joined, RuntimeStep-AreJoined}
use voice_edge_monitor.Server.Lifetime.Order.{Ordered, RuntimeStep-Ordered, is_off}

module _ {F : Floats} (options : Options F) (e : Surroundings)
    (asr_queue : Queue SpeechSegment) where
  abbrev pub started : Runtime
  started =
      (start options e (construct options.max_clients options.client_queue_capacity asr_queue)).0

  started-Ordered : Ordered started
  unfolding start after_asr open_recogniser start_store start_made after_store start_threads
      construct make make_store Recorder.start enabled
  started-Ordered = ground arith

  joined_none : joined started.stop started.copied ≡ 0
  unfolding start after_asr open_recogniser start_store start_made after_store start_threads
      construct make make_store Recorder.start enabled
  joined_none = ground arith

  pub Lives-Ordered : (s : Runtime) → Lives started s → Ordered s
  Lives-Ordered s r = lives_inv Ordered RuntimeStep-Ordered started s r started-Ordered

  Lives-AreJoined :
      (s : Runtime) → Lives started s → AreJoined (joined s.stop s.copied) s.clients.clients
  Lives-AreJoined s r =
      lives_inv (λ t. AreJoined (joined t.stop t.copied) t.clients.clients) RuntimeStep-AreJoined
        started s r (subst (λ n. AreJoined n started.clients.clients) (sym joined_none) tt)

  has_left-left : (l : Loop) → has_left l ≡ true → l ≡ left
  has_left-left l h = ground arith

  has_ended-ended : (l : AsrLoop) → has_ended l ≡ true → l ≡ ended
  has_ended-ended l h = ground arith

  -- Whatever `start()` meets, also where it throws and the destructor calls `stop()`, and however the
  -- threads interleave then: when `stop()` returns, the threads of the server have left their loops or
  -- were not started, the recorder's thread is not running, and each session of the copy that `stop()` has
  -- made of the clients has come to its end.
  pub shutdown_joins :
      (s : Runtime)
      → Lives started s
      → s.stop ≡ stopped
      → (s.accept ≡ left)
        × (s.capture ≡ left)
        × (s.asr ≡ ended)
        × (is_off s.recording_store ≡ true)
        × AreJoined s.copied s.clients.clients
  shutdown_joins s r e =
      let o = Lives-Ordered s r in
      (
        has_left-left s.accept (ground (arith, o.accept_left)),
        has_left-left s.capture (ground (arith, o.capture_left)),
        has_ended-ended s.asr (ground (arith, o.asr_ended)),
        ground (arith, o.store_off),
        subst (λ p. AreJoined (joined p s.copied) s.clients.clients) e (Lives-AreJoined s r),
      )

  -- Whatever `start()` meets and however the threads interleave, also while `stop()` runs: the recogniser's
  -- thread never hands a record to a recorder that is not started, which would end the program with an
  -- exception that nothing catches.
  pub never_terminated : (s : Runtime) → Lives started s → ¬ (s.asr ≡ terminated)
  never_terminated s r e = let o = Lives-Ordered s r in ground (arith, o.asr_lives)
