-- ===== src/Config/Layered/Limits.antt =====
-- The settings of the group `limits` of a configuration, read from one layer and from three in turn.
use pic_x.Base.{arith, Text, Option, ◌≡◌, ok}
use pic_x.Limits.{Limits, IpAddr}
use pic_x.Config.Parse.{
  parse_bytes, parse_count, parse_duration, parse_exempt, parse_lifetime, parse_per_peer,
}
use pic_x.Config.Keys.{
  setting_limits_connections, setting_limits_connections_per_peer, setting_limits_peer_exempt,
  setting_limits_connection_lifetime, setting_limits_write_stall_timeout,
  setting_limits_concurrent_requests, setting_limits_request_timeout,
  setting_limits_handshake_timeout, setting_limits_header_timeout, setting_limits_body_bytes,
  setting_limits_header_bytes,
}
use pic_x.Config.Layer.{Pairs, setting_of}
use pic_x.Config.Groups.{apply_limits}
use pic_x.Config.Apply.{Layers}
use pic_x.Config.Layered.Chosen.{IsChosen, topmost, setting_of-IsChosen}

record Reads (parse_address : Text → Option IpAddr) (s : Pairs) (c d : Limits) : Type 0 where
  pub connections :
      setting_of s setting_limits_connections parse_count c.connections ≡ ok d.connections
  pub connections_per_peer :
      setting_of s setting_limits_connections_per_peer parse_per_peer c.connections_per_peer
      ≡ ok d.connections_per_peer
  pub peer_exempt :
      setting_of s setting_limits_peer_exempt (parse_exempt parse_address) c.peer_exempt
      ≡ ok d.peer_exempt
  pub connection_lifetime :
      setting_of s setting_limits_connection_lifetime parse_lifetime c.connection_lifetime
      ≡ ok d.connection_lifetime
  pub write_stall_timeout :
      setting_of s setting_limits_write_stall_timeout parse_duration c.write_stall_timeout
      ≡ ok d.write_stall_timeout
  pub concurrent_requests :
      setting_of s setting_limits_concurrent_requests parse_count c.concurrent_requests
      ≡ ok d.concurrent_requests
  pub request_timeout :
      setting_of s setting_limits_request_timeout parse_duration c.request_timeout
      ≡ ok d.request_timeout
  pub handshake_timeout :
      setting_of s setting_limits_handshake_timeout parse_duration c.handshake_timeout
      ≡ ok d.handshake_timeout
  pub header_timeout :
      setting_of s setting_limits_header_timeout parse_duration c.header_timeout
      ≡ ok d.header_timeout
  pub body_bytes : setting_of s setting_limits_body_bytes parse_bytes c.body_bytes ≡ ok d.body_bytes
  pub header_bytes :
      setting_of s setting_limits_header_bytes parse_bytes c.header_bytes ≡ ok d.header_bytes

apply_limits-Reads :
    (parse_address : Text → Option IpAddr) (s : Pairs) (c : Limits) {d : Limits}
    → apply_limits parse_address s c ≡ ok d
    → Reads parse_address s c d
unfolding apply_limits
apply_limits-Reads parse_address s c h = ground arith

-- Each setting is what the topmost layer that supplies it says, or as it was.
pub record AreChosen (parse_address : Text → Option IpAddr) (l : Layers) (c d : Limits)
    : Type 0 where
  pub connections :
      IsChosen parse_count c.connections d.connections (topmost l setting_limits_connections)
  pub connections_per_peer :
      IsChosen parse_per_peer c.connections_per_peer d.connections_per_peer
        (topmost l setting_limits_connections_per_peer)
  pub peer_exempt :
      IsChosen
        (parse_exempt parse_address)
        c.peer_exempt
        d.peer_exempt
        (topmost l setting_limits_peer_exempt)
  pub connection_lifetime :
      IsChosen parse_lifetime c.connection_lifetime d.connection_lifetime
        (topmost l setting_limits_connection_lifetime)
  pub write_stall_timeout :
      IsChosen parse_duration c.write_stall_timeout d.write_stall_timeout
        (topmost l setting_limits_write_stall_timeout)
  pub concurrent_requests :
      IsChosen parse_count c.concurrent_requests d.concurrent_requests
        (topmost l setting_limits_concurrent_requests)
  pub request_timeout :
      IsChosen parse_duration c.request_timeout d.request_timeout
        (topmost l setting_limits_request_timeout)
  pub handshake_timeout :
      IsChosen parse_duration c.handshake_timeout d.handshake_timeout
        (topmost l setting_limits_handshake_timeout)
  pub header_timeout :
      IsChosen parse_duration c.header_timeout d.header_timeout
        (topmost l setting_limits_header_timeout)
  pub body_bytes :
      IsChosen parse_bytes c.body_bytes d.body_bytes (topmost l setting_limits_body_bytes)
  pub header_bytes :
      IsChosen parse_bytes c.header_bytes d.header_bytes (topmost l setting_limits_header_bytes)

pub apply_limits-AreChosen :
    (parse_address : Text → Option IpAddr) (l : Layers) (c : Limits) {filed running d : Limits}
    → apply_limits parse_address l.file c ≡ ok filed
    → apply_limits parse_address l.environment filed ≡ ok running
    → apply_limits parse_address l.command_line running ≡ ok d
    → AreChosen parse_address l c d
apply_limits-AreChosen parse_address l c f e g =
    let x = apply_limits-Reads parse_address _ _ f in
    let y = apply_limits-Reads parse_address _ _ e in
    let z = apply_limits-Reads parse_address _ _ g in
    record {
      connections =
          setting_of-IsChosen l setting_limits_connections parse_count c.connections x.connections
            y.connections z.connections;
      connections_per_peer =
          setting_of-IsChosen l setting_limits_connections_per_peer parse_per_peer
            c.connections_per_peer x.connections_per_peer y.connections_per_peer
            z.connections_per_peer;
      peer_exempt =
          setting_of-IsChosen l setting_limits_peer_exempt (parse_exempt parse_address)
            c.peer_exempt x.peer_exempt y.peer_exempt z.peer_exempt;
      connection_lifetime =
          setting_of-IsChosen l setting_limits_connection_lifetime parse_lifetime
            c.connection_lifetime x.connection_lifetime y.connection_lifetime z.connection_lifetime;
      write_stall_timeout =
          setting_of-IsChosen l setting_limits_write_stall_timeout parse_duration
            c.write_stall_timeout x.write_stall_timeout y.write_stall_timeout z.write_stall_timeout;
      concurrent_requests =
          setting_of-IsChosen l setting_limits_concurrent_requests parse_count c.concurrent_requests
            x.concurrent_requests y.concurrent_requests z.concurrent_requests;
      request_timeout =
          setting_of-IsChosen l setting_limits_request_timeout parse_duration c.request_timeout
            x.request_timeout y.request_timeout z.request_timeout;
      handshake_timeout =
          setting_of-IsChosen l setting_limits_handshake_timeout parse_duration c.handshake_timeout
            x.handshake_timeout y.handshake_timeout z.handshake_timeout;
      header_timeout =
          setting_of-IsChosen l setting_limits_header_timeout parse_duration c.header_timeout
            x.header_timeout y.header_timeout z.header_timeout;
      body_bytes =
          setting_of-IsChosen l setting_limits_body_bytes parse_bytes c.body_bytes x.body_bytes
            y.body_bytes z.body_bytes;
      header_bytes =
          setting_of-IsChosen l setting_limits_header_bytes parse_bytes c.header_bytes
            x.header_bytes y.header_bytes z.header_bytes;
    }
