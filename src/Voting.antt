-- ===== src/Voting.antt =====
-- Votes as they arrive: from a user over the HTTP interface (app/events/events.py) and from another
-- node over a websocket (`Consumer.consumer` of app/websocket.py).
pub mod Payload
pub mod Api
pub mod Consumer
pub mod Sockets
