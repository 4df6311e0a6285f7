-- ===== src/Lib.antt =====
-- The back end of a booking service for beauty professionals: its domain entities, the handlers of
-- bookings, reviews, categories and services, the sessions and PINs of its users.
--
-- A professional's account (src/modules/professional) is an aggregate: the professional, the
-- services on offer, the hours of each day of the week, and the gallery. Clients book it
-- (src/modules/client); the professional confirms, rejects, completes or cancels the bookings
-- (src/modules/professional/interface/handlers). Everything is stored by a database client, which
-- is third-party code.
--
-- Base: lists as arrays with the methods that take a test, texts as lists of UTF-16 code units with
--   `trim`, whole numbers, and the exceptions of src/libs/exceptions/domain.exceptions.ts as values
--   of a `Result`; a handler or method that may throw is a `do` block of that monad, in the order of
--   the source. Where a message is built from values, its fixed beginning is kept.
-- Availability: src/modules/professional/core/entities/availability.entity.ts, the opening hours of a
--   day; Availability/Ranges is `TimeRangeVO`. A number is missing where JavaScript has NaN; a text
--   that is not made of decimal digits counts as NaN.
-- Service: service-offering.entity.ts, beside it, with the travel fees by commune.
-- Gallery: gallery-item.entity.ts, and the stable sort of the gallery (Gallery/Sorting).
-- Professional: professional.entity.ts. Professional/Status has the verification, suspension and the
--   switches; Images, Services, Schedule and Portfolio have the collections; Visibility has who is
--   listed, who may be booked, and the completion of the profile. `getSummary`, which only copies
--   fields for display, is not modelled.
-- Hours: src/modules/professional/interface/handlers/availability.handlers.ts, the commands that set
--   the weekly hours. The repository finds an aggregate or nothing and saves it whole: a handler takes
--   the first and returns the second. Hours/Week is about the loop over the days.
-- Schedule: src/modules/professional/interface/presenters/schedule.presenter.ts, the week as it is
--   shown to clients, and whether a professional is open at a date.
-- Database: the calls of the database client that the handlers use, as a record of operations over
--   an unknown state, and the laws that its documentation promises; Database/Memory is a table in
--   memory that meets them, Database/Writes what a look-up finds after a write. Calls run one after
--   another: two requests at once are not modelled.
-- Booking: the rows of prisma/schema.prisma that the handlers of bookings read and write.
--   Booking/Slots has `validateBookingSlot` and `findOverlappingBookings` of
--   src/modules/client/interface/handlers/booking.handlers.ts, Booking/Pricing and Booking/Creation
--   its two commands, Booking/Decisions the seven commands of
--   src/modules/professional/interface/handlers/booking.handlers.ts. Booking/Lifecycle takes every
--   call that returns as a step of the database, the deactivation of a service included, which is
--   the one writer of bookings outside of these files. The events that the handlers publish, the columns
--   that the answers include, and the queries that only list bookings are not modelled.
-- Review: src/modules/review. Review/Submission is `SubmitReviewHandler` of
--   interface/handlers/submit-review.handler.ts, with the unique index of the schema on session and
--   side; Review/Editing is the edit of a review, Review/Opening what the module does when a booking ends
--   (booking-event.handlers.ts), Review/Expiry the scheduler that opens expired sessions. Review/Effects
--   breaks every call into writes, Review/Runs and Review/Lasting are about sequences of calls.
-- Sentinel: src/modules/sentinel: the user and token entities and what the handlers use of the two
--   repositories. Sentinel/Sessions has refresh-token.handler.ts, logout.handler.ts and
--   revoke-session.handler.ts, Sentinel/Pins the check of the PIN in start-login.handler.ts with its
--   block, change-pin.handler.ts, and the rules for a new PIN in create-pin.handler.ts,
--   reset-pin.handler.ts and change-pin.handler.ts. Hashing is a parameter.
-- Catalogue: the first six handlers of src/modules/professional/interface/handlers/service.handlers.ts,
--   on categories and on requests for new ones, with the unique indexes of the schema and the slug of a
--   name. The comparison of names without regard to case is a parameter.
-- Offers: the other handlers of that file, save the one that writes many services at once and the
--   queries, with src/modules/sentinel/services/professional-eligibility.service.ts, which they call.
-- Scheduler: src/modules/professional/professional.scheduler.ts, the jobs that verify, reject and
--   reopen accounts, with the queries of infrastructure/persistence/professional.repository.ts that
--   select them, on the list of the accounts.
-- Otp: the one-time codes of src/modules/sentinel: core/entities/otp.entity.ts, the writes of
--   infrastructure/persistence/repositories/otp.repository.ts on one row, and the check of a code that
--   interface/handler/verify-otp.handler.ts and login-complete.handler.ts share. Whether a code matches
--   its hash is a parameter.
--
-- Time: `new Date()` is an argument `now`; a date is a number of milliseconds since the epoch, never
-- before it. Ids are numbers, since they are only compared. A method that writes to `this` returns
-- the new record. Prices, durations and fees are whole numbers: signed in the entities, which test
-- the sign, and not negative in the rows. An average rating is a fraction; coordinates are counted
-- in millionths of a degree. No definition takes fuel: every loop is a recursion on a list or text.
--
-- Not modelled: of src/modules/sentinel, the sending of codes with its rate limit, the registration
-- and completion of a login, the profile and onboarding handlers, and the guards; of
-- src/modules/professional, the handlers of profiles and galleries and the write of many services at
-- once; the queries, which select columns for display; notifications, media, the controllers and data
-- transfer objects, which declare routes for the web framework, the mappers, which copy columns, and
-- the generated database client.
pub mod Availability
pub mod Base
pub mod Booking
pub mod Catalogue
pub mod Database
pub mod Gallery
pub mod Hours
pub mod Offers
pub mod Otp
pub mod Professional
pub mod Review
pub mod Schedule
pub mod Scheduler
pub mod Sentinel
pub mod Service
