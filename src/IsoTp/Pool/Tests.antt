-- ===== src/IsoTp/Pool/Tests.antt =====
-- can-lite/transport/IsoTpTransportImpl.cpp: runs of a pool of two channels.
use can_lite.Base.{◌≤◌, ◌≡◌, refl, none, [], ◌∷◌}
use can_lite.Base.Search.{count, find_index}
use can_lite.IsoTp.Channel.{configure, enable_reception, set_parameters}
use can_lite.IsoTp.Pool.{
  Pool, no_channel, uses, find_channel, checked_connection, find_connection, allocate_free_channel,
  configure_channel, open_connection, enable_opened, register_found, register_receive_channel,
  release_channel,
}
use can_lite.IsoTp.Pool.Invariant.{IsValid, loops}
use can_lite.IsoTp.Pool.Reachable.{
  Reach, Step, start, later, empty-IsValid, step-IsValid, reach-open_once,
}
use can_lite.IsoTp.Pool.Connections.{
  Registered, register_receive_channel-find_connection, release_channel-find_channel,
}

abbrev two_channels : Pool
two_channels = record {
  channels = no_channel ∷ no_channel ∷ [];
  block_size = 8;
  separation_time = 2;
}

two_channels-IsValid : IsValid two_channels
unfolding count
two_channels-IsValid = empty-IsValid two_channels refl

abbrev registered : Pool
registered = (register_receive_channel two_channels 0x101 0x102).0

register_receive_channel-find_connection_example : Registered registered 0x101 0x102
unfolding register_receive_channel register_found find_connection checked_connection find_channel
    open_connection configure_channel allocate_free_channel enable_opened find_index configure
    set_parameters enable_reception
register_receive_channel-find_connection_example =
    register_receive_channel-find_connection two_channels 0x101 0x102 two_channels-IsValid refl

registered-IsValid : IsValid registered
registered-IsValid = step-IsValid (Step.registered two_channels 0x101 0x102) two_channels-IsValid

release_channel-find_channel_example :
    (find_channel (release_channel registered 0x101) 0x101 ≡ none)
    × (find_channel (release_channel registered 0x101) 0x102 ≡ none)
unfolding register_receive_channel register_found find_connection checked_connection find_channel
    open_connection configure_channel allocate_free_channel enable_opened find_index configure
    set_parameters enable_reception
release_channel-find_channel_example =
    release_channel-find_channel registered 0x101 0x102 0 registered-IsValid refl

-- A registration under an identifier that is in use is refused, and a release makes it free.
abbrev calls :
    Reach two_channels (release_channel (register_receive_channel registered 0x102 0x103).0 0x101)
calls =
    later
      (later (later start (Step.registered two_channels 0x101 0x102))
        (Step.registered registered 0x102 0x103))
      (Step.released _ 0x101)

reach-open_once_example :
    let p = release_channel (register_receive_channel registered 0x102 0x103).0 0x101 in
    (count (uses 0x102) p.channels ≤ 1) × (count loops p.channels ≡ 0)
unfolding count
reach-open_once_example = reach-open_once two_channels _ 0x102 refl calls
