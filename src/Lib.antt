-- ===== src/Lib.antt =====
-- AudioServer 2.0: the web clients, which are the portal for admins and players (portal, a Next.js
-- program) and the listen page (client-lite, a Svelte page), and, of the relay that serves them
-- (backend, in Rust) and of the plugins of the game (plugin, in Java), what opens their sessions and
-- what brings the events of the game to them.
--
-- How the parts interact. A link from the game leads to a callback of the portal, which exchanges the
-- token for a signed one at the relay and keeps that in a cookie. An admin can also log in by a form.
-- The proxy of the portal reads the two cookies at each request and lets it through or redirects it.
-- The pages call the relay through handlers of the portal that add the token of the cookie, and the
-- feed of events opens a socket with a ticket that such a handler asks for. The listen page opens a
-- socket to the relay with its own token and plays what the relay's messages ask for.
--
-- Which file models what; a definition has the name of the source in snake case.
--   Http, Http/Cookies: what the platform hands over: the environment, the result of a fetch, the
--     browser's cookies as a list of names and values with their options, and what the browser has of
--     them once a cookie has come of age (`aged`).
--   Auth: portal/lib/auth.ts and portal/lib/player-auth.ts; proofs in Auth/Laws.
--   Proxy: portal/proxy.ts. `proxy` reads the sessions (`admin_authed`, `player_authed`) and `route`
--     decides. Proofs in Proxy/Laws, Proxy/Media and, on the cookies, Proxy/Sessions.
--   Layout: portal/app/(player)/layout.tsx.
--   Actions: portal/app/actions/auth.ts, the actions loginWithCredentials, loginWithSecret, logout.
--   Login: portal/app/login/page.tsx, the page with the two forms; Login/Attempt: one attempt.
--   Callback: portal/app/auth/callback/route.ts (`player_callback`),
--     portal/app/auth/admin-callback/route.ts (`admin_callback`), portal/app/auth/error/page.tsx.
--   Relay: portal/lib/relay.ts, portal/app/api/relay/[...path]/route.ts (`admin_relay`) and
--     portal/app/api/player-relay/[...path]/route.ts (`player_relay`); Relay/Ticket:
--     portal/app/api/admin-ticket/route.ts.
--   Api: portal/lib/api.ts, one function for each method of `api`.
--   Events: portal/app/(admin)/events/page.tsx. The callbacks of the page are inputs of `step`; what
--     the page shows, with the events of portal/lib/ws-types.ts, is `feed` of Events/View. Proofs in
--     Events/Invariant, Events/Feed and Events/Progress.
--   Media: portal/app/(admin)/media/page.tsx, with an upload that runs from its start to its end;
--     Media/Overlap: uploads as calls that stop at each `await`, on a shared page; Media/View: what
--     the page shows; Media/Copy: copyRegionUrl and its mark; Media/Format: formatBytes and formatAge
--     there, and formatAge of portal/app/(admin)/sessions/page.tsx.
--   Overview: portal/app/(admin)/dashboard/page.tsx and portal/app/(admin)/sessions/page.tsx, with
--     the cards of portal/components/stat-card.tsx.
--   Nav: portal/components/nav.tsx.
--   Settings: portal/app/(admin)/settings/page.tsx; Preferences:
--     portal/app/(player)/preferences/page.tsx, with the way of the profile through the proxy in
--     Preferences/EndToEnd; Forms: what these two pages share.
--   Lite: client-lite/src/routes/+page.svelte, with the messages of client-lite/src/lib/ws-types.ts;
--     Lite/View: its markup; Lite/Replay: the same page once a clip has come to its end.
--   Backend: the relay, by the crates, stores and configuration that it is given: Backend/Tokens:
--     backend/src/auth/ott.rs, player_ott.rs, admin_login_ott.rs and admin_ticket.rs, each a
--     `validate` of its own name; Backend/Jwt: backend/src/auth/jwt.rs and extractor.rs, with what
--     jose and jsonwebtoken have in common in Backend/Jwt/Agreement; Backend/Handlers:
--     backend/src/api/auth.rs, admin_ticket.rs and `player_callback` of player.rs; Backend/Players:
--     `get_me` and `put_player_settings` of player.rs, with their statements of SQL; Backend/Settings:
--     backend/src/api/settings.rs; Backend/Session: backend/src/ws/handler.rs;
--     Backend/AdminSession: backend/src/ws/admin.rs.
--   Plugin: the events of plugin/common/src/main/java/dev/audioserver/event and of the velocity
--     plugin's PlayerEventListener.java, as the texts that are published (`to_json`), with the object
--     that such a text means (`fields`); `publish_and_record` of Backend/AdminSession is
--     publishAndRecord of RedisManager.java.
--   EndToEnd: the parts together, with the paths of backend/src/router.rs: EndToEnd/Links, with the
--     relay's answer in Links/Exchange and the store of tokens in EndToEnd/Spent: a link of the game,
--     the callback of the portal, the relay and the proxy; EndToEnd/Audio: the plugins, the relay and the listen page; EndToEnd/Feed: the
--     plugins, the relay and the page of events; EndToEnd/Tickets: the ticket of that page;
--     EndToEnd/Saves: the player's page and the relay, with the request on its way and the body as the
--     relay reads it in Saves/Route.
--   Common: names of the libraries, tests, lists and texts. Tests: runs at inputs.
--
-- What is assumed. The package jose is the record `Jose` with the hypotheses `IsSound`; howler.js
-- is the record `Howler` with its laws as fields: a Howl plays what it was told to, until it is
-- stopped, or, as events of the page, its source cannot be loaded or its clip has come to its end;
-- the crates of the relay are the record `Crates`, and `Agrees` says that jose and jsonwebtoken
-- read each other's tokens; Redis is the record `Redis`, with the laws of GETDEL and SET … EX as
-- fields, and a command of it may fail at any time; PostgreSQL may answer anything, but in
-- Backend/Players its tables are maps, and a statement that fails leaves them as they are. Where a
-- theorem is about the portal alone, `fetch` is a function from requests to responses, so the
-- relay may answer anything; in EndToEnd it is the relay's handler. JSON that a handler reads is
-- given at the type that the source asserts, but for the events of the feed, which may lack any
-- field, and the body of a save in EndToEnd/Saves, which is read as it was written: a number that
-- is not finite is `null` there. Java's `%.2f` and what serde_json makes of a text are parameters
-- in EndToEnd/Audio. Numbers that are only passed on, such as volumes, are of an arbitrary type,
-- and how they are shown is a parameter. Times are whole seconds in tokens and in Redis and whole
-- milliseconds in ages.
--
-- Bounds. No function takes fuel: the only loops go over lists. The feed keeps 500 events, as the
-- source does, and is proved for every history of inputs.
--
-- What is not modelled: styles, and the markup that shows no state; the router of Next.js and the
-- matcher of the proxy; the caches of fetch; that a browser drops a cookie when its age is over,
-- but for the player's after a visit of a link in EndToEnd/Links; of the relay the handlers of
-- media, sessions and statistics and its set-up; of the plugins the commands, regions and
-- listeners that cause the events; and the pages that hold no logic of their own.
pub mod Actions
pub mod Api
pub mod Auth
pub mod Backend
pub mod Callback
pub mod Common
pub mod EndToEnd
pub mod Events
pub mod Forms
pub mod Http
pub mod Layout
pub mod Lite
pub mod Login
pub mod Media
pub mod Nav
pub mod Overview
pub mod Plugin
pub mod Preferences
pub mod Proxy
pub mod Relay
pub mod Settings
pub mod Tests
