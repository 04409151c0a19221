-- ===== src/Tests.antt =====
-- Runs of the models at concrete inputs.
mod Auth
mod Notification
mod Once
mod Rabbitmq
mod Delivery
mod Http
mod Listing
mod Users
mod Updates
mod Config
mod Requests
mod Serving
mod Calls
mod Mail
mod Tokens
mod Processes
mod Contract
mod Account
mod Concurrent
mod Welcome
